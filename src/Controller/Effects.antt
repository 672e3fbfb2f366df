-- ===== src/Controller/Effects.antt =====
-- Which calls the controller makes.
use csi_driver_nfs_export.Base.{String, ℤ, ◌≡◌, refl, ◌⊎◌, inl, inr}
use csi_driver_nfs_export.Api.Calls.{Call}
use csi_driver_nfs_export.Api.Exec.{ok, lift, Code, canceled, invalid_argument, ◌>>=◌}
use csi_driver_nfs_export.Api.Client.{Env}
use csi_driver_nfs_export.Api.Rules.{Does-bind-lift, Does-mono, Does-bind, Does, does_rules}
use csi_driver_nfs_export.Controller.Volume.{
  choose_class, ensure_data_pvc, data_pvc_def, provision, volume_id_of, create_volume,
  CreateRequest,
}
use csi_driver_nfs_export.Controller.Parameters.{Parameters, read_parameters, no_parameters}

-- The calls that provisioning a volume may make: it lists the storage classes, and gets or creates
-- the claim of the volume's identifier in the given namespace.
pub data IsProvisioning (id ns : String) (size : ℤ) : Call → Type 0 where
  lists : IsProvisioning id ns size Call.list_storage_classes
  gets : IsProvisioning id ns size (Call.get_pvc ns id)
  creates :
      (data_sc : String)
      → IsProvisioning id ns size (Call.create_pvc ns (data_pvc_def id data_sc size))

abbrev IsCanceled : Code → Type 0
IsCanceled c = c ≡ canceled

module _ (e : Env) (id ns : String) (size : ℤ) where
  choose_class-Does :
      (sc : String) → Does (IsProvisioning id ns size) IsCanceled (choose_class e sc)
  unfolding choose_class
  choose_class-Does sc = search (does_rules, lists)

  gets_def :
      (sc : String) → IsProvisioning id ns size (Call.get_pvc ns (data_pvc_def id sc size).name)
  unfolding data_pvc_def
  gets_def sc = gets

  ensure_data_pvc-Does :
      (sc : String)
      → Does (IsProvisioning id ns size) IsCanceled (ensure_data_pvc e ns (data_pvc_def id sc size))
  unfolding ensure_data_pvc
  ensure_data_pvc-Does sc = search (does_rules, gets_def, creates) depth 10

pub provision-Does :
    (e : Env) (name : String) (size : ℤ) (p : Parameters)
    → Does
        (IsProvisioning (volume_id_of name) p.claim_namespace size)
        IsCanceled
        (provision e name size p)
unfolding provision
provision-Does e name size p = search (
  does_rules,
  choose_class-Does e (volume_id_of name) p.claim_namespace size,
  ensure_data_pvc-Does e (volume_id_of name) p.claim_namespace size,
)

abbrev pub IsCanceledOrInvalid : Code → Type 0
IsCanceledOrInvalid c = (c ≡ canceled) ⊎ (c ≡ invalid_argument)

invalid-fits : IsCanceledOrInvalid invalid_argument
invalid-fits = inr refl

ok_inj : {p q : Parameters} → ok p ≡ ok q → p ≡ q
ok_inj h = cc

read-Does :
    (e : Env) (req : CreateRequest) (p : Parameters)
    → read_parameters req.parameters no_parameters ≡ ok p
    → Does
        (IsProvisioning (volume_id_of req.name) p.claim_namespace req.required_bytes)
        IsCanceledOrInvalid
        (lift (read_parameters req.parameters no_parameters)
          >>= provision e req.name req.required_bytes)
read-Does e req p read = rw read (
    Does-bind-lift (ok p) (provision e req.name req.required_bytes) tt (λ p' same.
      rw (← ok_inj same)
        (Does-mono _ (λ c q. inl q) (provision-Does e req.name req.required_bytes p))))

-- A request whose parameters are read as `p` ends with a response, with InvalidArgument or with
-- Canceled, and it calls for nothing but the storage classes and the claim that is named after
-- the volume, in the namespace of `p` and of the requested size.
pub create_volume-Does :
    (e : Env) (req : CreateRequest) (p : Parameters)
    → read_parameters req.parameters no_parameters ≡ ok p
    → Does
        (IsProvisioning (volume_id_of req.name) p.claim_namespace req.required_bytes)
        IsCanceledOrInvalid
        (create_volume e req)
unfolding create_volume
create_volume-Does e req p read =
    Does-bind _ _ (search (does_rules, invalid-fits))
      λ _. Does-bind _ _ (search (does_rules, invalid-fits)) λ _. read-Does e req p read
