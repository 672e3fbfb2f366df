-- ===== src/Controller/SharedTests.antt =====
-- A run of the theorem on a shared store of claims.
use csi_driver_nfs_export.Base.{
  String, Bool, true, false, ◌||◌, ◌&&◌, [], ◌∷◌, none, some, ◌==◌, ◌≡◌, refl, if◌then◌else◌,
  eq_refl,
}
use csi_driver_nfs_export.Api.Objects.{Pvc, Failure, Reply}
use csi_driver_nfs_export.Api.Calls.{Call, History}
use csi_driver_nfs_export.Api.Exec.{ok, calls, ◌>>=◌}
use csi_driver_nfs_export.Api.Client.{Env}
use csi_driver_nfs_export.Api.Rules.{same, more}
use csi_driver_nfs_export.Params.{key_of}
use csi_driver_nfs_export.Controller.Parameters.{
  Parameters, no_parameters, set_parameter, read_parameters,
}
use csi_driver_nfs_export.Controller.Volume.{
  create_volume, provision, choose_class, ensure_data_pvc, volume_id_of,
}
use csi_driver_nfs_export.Controller.Created.{volume_of, after_choice}
use csi_driver_nfs_export.Controller.Shared.{SparesClaims, IsSharedStore, create_volume_survives}
use csi_driver_nfs_export.Scenario.{given, healthy, data_claim, class_parameters, create_request}

abbrev missing : Failure
missing = record { message = "not found"; not_exist = true; permission = false }

abbrev taken : Failure
taken = record { message = "already exists"; not_exist = false; permission = false }

-- The claims that the driver has created; another party creates one with the name "nfs-9" whenever the
-- driver lists the persistent volumes.
abbrev has : History → String → String → Bool
has [] ns name = false
has (Call.create_pvc ns def ∷ h) n m = (ns == n && def.name == m) || has h n m
has (Call.delete_pvc ns name ∷ h) n m = if ns == n && name == m then false else has h n m
has (Call.list_pvs ∷ h) n m = (m == "nfs-9") || has h n m
has (_ ∷ h) n m = has h n m

abbrev found_if : Bool → Reply Pvc
found_if true = given data_claim
found_if false = record { value = data_claim; error = some missing }

abbrev accepted_if : Bool → Pvc → Reply Pvc
accepted_if true def = record { value = def; error = some taken }
accepted_if false def = given def

abbrev sharing : Env
sharing = record healthy {
  pvc = λ h ns name. found_if (has h ns name);
  created_pvc = λ h ns def. accepted_if (has h ns def.name) def;
}

seen_lem : (b : Bool) → (found_if b).error ≡ none → b ≡ true
seen_lem true q = refl
seen_lem false q = cc

or_keeps : (a b : Bool) → b ≡ true → (a || b) ≡ true
or_keeps true b q = refl
or_keeps false b q = q

kept_lem :
    (h : History) (c : Call) (ns name : String)
    → SparesClaims c
    → has h ns name ≡ true
    → has (c ∷ h) ns name ≡ true
kept_lem h (Call.create_pvc ns' def) ns name p q = or_keeps _ _ q
kept_lem h (Call.delete_pvc ns' name') ns name p q = absurd p
kept_lem h Call.list_pvs ns name p q = or_keeps _ _ q
kept_lem h _ ns name p q = q

sharing-IsSharedStore : IsSharedStore sharing has
sharing-IsSharedStore = record {
  found = λ h ns name q. rw q refl;
  seen = λ h ns name q. seen_lem (has h ns name) q;
  created = λ h ns def q. rw (eq_refl ns, eq_refl def.name) refl;
  kept = kept_lem;
}

abbrev parameters : Parameters
parameters = record no_parameters { data_sc = "fast"; hosts_allow = "*"; claim_namespace = "app" }

abbrev created_calls : History
created_calls = calls (create_volume sharing create_request [])

create_answers :
    create_volume sharing create_request []
    ≡ (ok (volume_of create_request parameters), created_calls)
unfolding create_volume read_parameters set_parameter key_of ◌>>=◌ provision choose_class
    ensure_data_pvc
create_answers = refl

create_volume_survives_example :
    (p : Parameters) × (read_parameters class_parameters no_parameters ≡ ok p)
    × (create_volume sharing create_request (Call.list_pvs ∷ created_calls) ≡ (
      ok (volume_of create_request parameters),
      Call.get_pvc p.claim_namespace (volume_id_of "pvc-1")
          ∷ after_choice p.data_sc (Call.list_pvs ∷ created_calls),
    ))
create_volume_survives_example =
    create_volume_survives sharing has sharing-IsSharedStore create_request [] created_calls
      (Call.list_pvs ∷ created_calls) create_answers (more tt same)
