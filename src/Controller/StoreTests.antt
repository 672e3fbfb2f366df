-- ===== src/Controller/StoreTests.antt =====
-- Runs of the theorems on a claim store: an API server that keeps the claims it was given.
use csi_driver_nfs_export.Base.{
  String, pos, true, false, ◌&&◌, List, [], ◌∷◌, ◌++◌, Option, none, some, ◌==◌, ◌≡◌, inl, refl,
  if◌then◌else◌,
}
use csi_driver_nfs_export.Base.Entries.{Entries, index}
use csi_driver_nfs_export.Api.Objects.{Pvc, Pv, CsiSource, Failure, Reply}
use csi_driver_nfs_export.Api.Calls.{Call, History}
use csi_driver_nfs_export.Api.Exec.{ok, result, calls, ◌>>=◌}
use csi_driver_nfs_export.Api.Client.{Env}
use csi_driver_nfs_export.Controller.Parameters.{
  Parameters, no_parameters, set_parameter, read_parameters,
}
use csi_driver_nfs_export.Controller.Volume.{
  CreateRequest, Volume, volume_id_of, volume_context_of, find_pv, create_volume, delete_volume,
  provision, choose_class, ensure_data_pvc,
}
use csi_driver_nfs_export.Controller.Created.{volume_of}
use csi_driver_nfs_export.Controller.Store.{Claims, put_claim, writes_claims, IsClaimStore}
use csi_driver_nfs_export.Controller.Lasting.{
  create_all, Creations, create_all_refines, create_volume_lasts,
}
use csi_driver_nfs_export.Controller.Leaked.{deleted_claim_remains}
use csi_driver_nfs_export.Node.Publish.{publish_volume, PublishRequest}
use csi_driver_nfs_export.Params.{key_of}
use csi_driver_nfs_export.Node.Attempt.{AttemptEnds}
use csi_driver_nfs_export.Node.Composed.{IsContextOf}
use mathlib.Core.List.Permᴰ
use csi_driver_nfs_export.Base.Loops.{AllPairs-Pairwise}
use mathlib.Core.Bool.{Bool-set}
use csi_driver_nfs_export.Node.Arrived.{created_volume_mounts}
use csi_driver_nfs_export.Scenario.{
  healthy-PollsAsDocumented, given, healthy, data_claim, app_claim, single_writer, class_parameters,
  create_request, publish_request,
}

abbrev missing : Failure
missing = record { message = "not found"; not_exist = true; permission = false }

abbrev taken : Failure
taken = record { message = "already exists"; not_exist = false; permission = false }

abbrev drop_claim : String → String → Claims → Claims
drop_claim ns name claims n m = if ns == n && name == m then none else claims n m

abbrev insert_claim : Option Pvc → String → Pvc → Claims → Claims
insert_claim none ns def claims = put_claim ns def.name (record def { uid = "u-9" }) claims
insert_claim (some claim) ns def claims = claims

-- The claims that the calls have left.
abbrev stored : History → Claims
stored [] = λ ns name. none
stored (Call.create_pvc ns def ∷ h) = insert_claim (stored h ns def.name) ns def (stored h)
stored (Call.delete_pvc ns name ∷ h) = drop_claim ns name (stored h)
stored (_ ∷ h) = stored h

abbrev found_claim : Option Pvc → Reply Pvc
found_claim (some claim) = given claim
found_claim none = record { value = data_claim; error = some missing }

abbrev accepted_claim : Option Pvc → Pvc → Reply Pvc
accepted_claim (some claim) def = record { value = def; error = some taken }
accepted_claim none def = given def

abbrev keeping : Env
keeping = record healthy {
  pvc = λ h ns name. found_claim (stored h ns name);
  created_pvc = λ h ns def. accepted_claim (stored h ns def.name) def;
}

stored_kept : (h : History) (c : Call) → writes_claims c ≡ false → stored (c ∷ h) ≡ stored h
stored_kept h (Call.create_pvc ns def) q = cc
stored_kept h (Call.delete_pvc ns name) q = cc
stored_kept h _ q = refl

refused_claim :
    (o : Option Pvc) (ns : String) (def : Pvc) (f : Failure) (claims : Claims)
    → (accepted_claim o def).error ≡ some f
    → insert_claim o ns def claims ≡ claims
refused_claim none ns def f claims q = cc
refused_claim (some claim) ns def f claims q = refl

keeping-IsClaimStore : IsClaimStore keeping stored
keeping-IsClaimStore = record {
  found = λ h ns name claim q. rw q refl;
  missing = λ h ns name q. (missing, rw q refl);
  created = λ h ns def free accepted. ("u-9", rw free refl);
  uncreated = λ h ns def f q. refused_claim (stored h ns def.name) ns def f (stored h) q;
  deleted = λ h ns name n m q. rw q refl;
  kept = stored_kept;
}

abbrev parameters : Parameters
parameters = record no_parameters { data_sc = "fast"; hosts_allow = "*"; claim_namespace = "app" }

abbrev created : Volume
created = volume_of create_request parameters

abbrev created_calls : History
created_calls = calls (create_volume keeping create_request [])

create_answers : create_volume keeping create_request [] ≡ (ok created, created_calls)
unfolding create_volume read_parameters set_parameter key_of ◌>>=◌ provision choose_class
    ensure_data_pvc
create_answers = refl

-- Another volume, a request that is refused, and the same volume with other parameters.
abbrev further : List CreateRequest
further =
    record create_request { name = "pvc-2" }
    ∷ record create_request { name = "" }
    ∷ record create_request { required_bytes = pos 4096 }
    ∷ []

create_all_refines_example :
    Creations
      (create_request ∷ further)
      (stored [])
      (create_all keeping (create_request ∷ further) []).0
      (stored (create_all keeping (create_request ∷ further) []).1)
create_all_refines_example =
    create_all_refines keeping stored keeping-IsClaimStore (create_request ∷ further) []

created_again :
    (result (create_volume keeping create_request (create_all keeping further created_calls).1)
      ≡ ok created)
    × (stored (
          calls (create_volume keeping create_request (create_all keeping further created_calls).1))
        ≡ stored (create_all keeping further created_calls).1)
created_again =
    create_volume_lasts keeping stored keeping-IsClaimStore create_request further [] created_calls
      create_answers

abbrev created_source : CsiSource
created_source = record {
  volume_handle = "nfs-1";
  volume_attributes = created.volume_context ++ [];
}

abbrev created_volume : Pv
created_volume = record { name = "pvc-1"; csi = some created_source; claim_ref = some app_claim }

abbrev listing : Env
listing = record keeping { pvs = λ h. given (created_volume ∷ []) }

listing-IsClaimStore : IsClaimStore listing stored
listing-IsClaimStore = record {
  found = keeping-IsClaimStore.found;
  missing = keeping-IsClaimStore.missing;
  created = keeping-IsClaimStore.created;
  uncreated = keeping-IsClaimStore.uncreated;
  deleted = keeping-IsClaimStore.deleted;
  kept = keeping-IsClaimStore.kept;
}

listing_answers : create_volume listing create_request [] ≡ (ok created, created_calls)
unfolding create_volume read_parameters set_parameter key_of ◌>>=◌ provision choose_class
    ensure_data_pvc
listing_answers = refl

deleted_claim_remains_example :
    (p : Parameters) × (claim : Pvc) × (read_parameters class_parameters no_parameters ≡ ok p)
    × (result (delete_volume listing "nfs-1" (create_all listing further created_calls).1) ≡ ok tt)
    × (stored
          (calls (delete_volume listing "nfs-1" (create_all listing further created_calls).1))
          p.claim_namespace
          "nfs-1"
        ≡ some claim)
unfolding find_pv index volume_id_of
deleted_claim_remains_example =
    deleted_claim_remains listing stored listing-IsClaimStore create_request further []
      created_calls created created_volume created_source [] listing_answers refl refl refl refl
      refl refl refl

class_parameters_read : read_parameters class_parameters no_parameters ≡ ok parameters
unfolding read_parameters set_parameter key_of
class_parameters_read = refl

-- The entries that the kubelet adds.
abbrev pod_entries : Entries
pod_entries =
    ("csi.storage.k8s.io/pod.name", "app")
    ∷ ("csi.storage.k8s.io/pod.namespace", "app")
    ∷ ("csi.storage.k8s.io/ephemeral", "false")
    ∷ []

abbrev publish_created : PublishRequest
publish_created = record publish_request { context = pod_entries ++ created.volume_context }

pod_context : IsContextOf created publish_created
unfolding key_of volume_context_of
pod_context = (
  pod_entries,
  (tt, (tt, (tt, tt))),
  ∣ Permᴰ.refl _ ∣₁,
  AllPairs-Pairwise (λ x y. Bool-set _ _) (pod_entries ++ created.volume_context)
      (
        (refl, (refl, (refl, (refl, (refl, (refl, tt)))))),
        (
          (refl, (refl, (refl, (refl, (refl, tt))))),
          (
            (refl, (refl, (refl, (refl, tt)))),
            ((refl, (refl, (refl, tt))), ((refl, (refl, tt)), ((refl, tt), (tt, tt)))),
          ),
        ),
      ),
)

created_volume_mounts_example :
    AttemptEnds keeping "/target"
      (create_all keeping further created_calls).1
      (publish_volume keeping 0 publish_created (create_all keeping further created_calls).1)
unfolding volume_id_of
created_volume_mounts_example =
    created_volume_mounts keeping (record { polled = healthy-PollsAsDocumented.polled }) stored
      keeping-IsClaimStore create_request parameters further [] created_calls created 0
      publish_created single_writer class_parameters_read refl create_answers refl pod_context refl
      refl refl (λ g l. (inl refl, refl, refl)) (λ g l. (inl refl, refl, λ mode. refl))
      (λ g l. (inl refl, (λ ip. (refl, refl)), λ source fs options. refl))
