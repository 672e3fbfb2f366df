-- ===== src/Controller/Checks.antt =====
-- When `CreateVolume` refuses a request, and what the refused and the accepted requests do.
use csi_driver_nfs_export.Base.{
  String, ℤ, Bool, true, false, not, ◌||◌, [], ◌∷◌, ◌==◌, ◌≡◌, refl, arith, any, inl, inr, is_some,
  Option-cases,
}
use csi_driver_nfs_export.Base.Entries.{Entries}
use csi_driver_nfs_export.Api.Calls.{History}
use csi_driver_nfs_export.Api.Exec.{
  ◌>>=◌, Outcome, ok, err, canceled, panic, continue, result, calls, invalid_argument,
}
use csi_driver_nfs_export.Api.Client.{Env}
use csi_driver_nfs_export.Api.Rules.{EndsIn}
use csi_driver_nfs_export.Controller.Effects.{provision-Does}
use csi_driver_nfs_export.Params.{
  Key, data_storage_class, nfs_server_image, nfs_hosts_allow, mount_permissions, pvc_name,
  pvc_namespace, pv_name, key_of,
}
use csi_driver_nfs_export.Controller.Parameters.{
  Parameters, no_parameters, set_parameter, read_parameters,
}
use csi_driver_nfs_export.Controller.Volume.{
  CreateRequest, are_valid_capabilities, provision, create_volume,
}

abbrev pub is_invalid_argument {ℓ} : {A : Type ℓ} → Outcome A → Bool
is_invalid_argument (err invalid_argument _) = true
is_invalid_argument _ = false

-- The parameters that a storage class may have.
abbrev pub is_class_key : Key → Bool
is_class_key data_storage_class = true
is_class_key nfs_server_image = true
is_class_key nfs_hosts_allow = true
is_class_key mount_permissions = true
is_class_key pvc_name = true
is_class_key pvc_namespace = true
is_class_key pv_name = true
is_class_key _ = false

abbrev pub is_foreign : String × String → Bool
is_foreign (k, v) = not (is_class_key (key_of k))

set_parameter-is_class_key :
    (k : Key) (v : String) (p : Parameters) → is_some (set_parameter k v p) ≡ is_class_key k
unfolding set_parameter
set_parameter-is_class_key data_storage_class v p = refl
set_parameter-is_class_key _ v p = refl

read_parameters-any :
    (m : Entries) (p : Parameters) → is_invalid_argument (read_parameters m p) ≡ any is_foreign m
unfolding read_parameters any
read_parameters-any [] p = refl
read_parameters-any ((k, v) ∷ m) p = elim (Option-cases (set_parameter (key_of k) v p)) [
  | inl refused ↦ ground (arith, set_parameter-is_class_key (key_of k) v p)
  | inr (p', e) ↦
      ground (arith, set_parameter-is_class_key (key_of k) v p, read_parameters-any m p')
]

accepts_of_EndsIn :
    {A : Type 0} (o : Outcome A) → EndsIn (λ c. c ≡ canceled) o → is_invalid_argument o ≡ false
accepts_of_EndsIn (ok a) h = refl
accepts_of_EndsIn (err c r) h = rw h
accepts_of_EndsIn panic h = refl

provision_accepts :
    (e : Env) (name : String) (size : ℤ) (p : Parameters) (h : History)
    → is_invalid_argument (result (provision e name size p h)) ≡ false
provision_accepts e name size p h = accepts_of_EndsIn _ ((provision-Does e name size p).ends h)

module _ (e : Env) (req : CreateRequest) (h : History) where
  refused_then :
      (o : Outcome Parameters)
      → let r = continue o (provision e req.name req.required_bytes) h in
        (is_invalid_argument (result r) ≡ is_invalid_argument o)
        × (is_invalid_argument (result r) ≡ true → calls r ≡ h)
  refused_then (ok p) = let a = provision_accepts e req.name req.required_bytes p h in (a, λ x. cc)
  refused_then (err c r) = (refl, λ x. refl)
  refused_then panic = (refl, λ x. refl)

-- `CreateVolume` answers InvalidArgument exactly if the name or the list of capabilities is empty
-- or some parameter is none of the known ones, and it has then made no call.
pub create_volume_refuses :
    (e : Env) (req : CreateRequest) (h : History)
    → (is_invalid_argument (result (create_volume e req h)) ≡ (
        req.name == ""
        || not (are_valid_capabilities req.capabilities)
        || any is_foreign req.parameters))
      × (is_invalid_argument (result (create_volume e req h)) ≡ true
          → calls (create_volume e req h) ≡ h)
unfolding create_volume ◌>>=◌
create_volume_refuses e req h = ground (
  arith,
  read_parameters-any req.parameters no_parameters,
  refused_then e req h (read_parameters req.parameters no_parameters),
)
