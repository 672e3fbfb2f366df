-- ===== src/Node/LastingTests.antt =====
-- Runs of the theorems on how long an export lasts: an API server that keeps the StatefulSets it was given.
use csi_driver_nfs_export.Base.{
  String, true, false, ◌&&◌, List, [], ◌∷◌, ◌++◌, Option, none, some, ◌==◌, ◌≡◌, refl,
  if◌then◌else◌, inl, inr, All, Bool-cases, eq_refl,
}
use csi_driver_nfs_export.Api.Objects.{StatefulSet, Failure, Reply}
use csi_driver_nfs_export.Api.Calls.{Call, History}
use csi_driver_nfs_export.Api.Client.{Env, PollsAsDocumented}
use csi_driver_nfs_export.Api.Exec.{ok, calls, ◌>>=◌}
use csi_driver_nfs_export.Controller.Volume.{Capability}
use csi_driver_nfs_export.Node.Attributes.{
  Attributes, start_attributes, set_attribute, read_attributes,
}
use csi_driver_nfs_export.Node.Export.{statefulset_def, service_def}
use csi_driver_nfs_export.Pods.{
  wait_for_pod_running, is_pod_running, wait_for_tcp_ready, is_tcp_ready,
}
use csi_driver_nfs_export.Node.Mount.{
  is_skipped, find_source, local_source, report_mount, finish_mode, mount_volume, prepare_target,
  mount_remote, ensure_service,
}
use csi_driver_nfs_export.Node.Publish.{
  PublishRequest, publish_volume, check_publish, require_capability, start_export, wait_for_export,
  ensure_statefulset,
}
use csi_driver_nfs_export.Params.{key_of}
use csi_driver_nfs_export.Node.Exports.{Exports, KeepsExport}
use csi_driver_nfs_export.Node.Store.{
  CreatesNothing, IsExportStore, Operation, create, unpublish, stats, perform_all, SparesVolume,
}
use csi_driver_nfs_export.Node.Lasting.{export_lasts}
use csi_driver_nfs_export.Base.Entries.{Entries}
use csi_driver_nfs_export.Base.Loops.{AllPairs-Pairwise}
use csi_driver_nfs_export.Node.Namespace.{IsNoNamespace}
use csi_driver_nfs_export.Node.Order.{AreApart}
use mathlib.Core.Bool.{Bool-set}
use mathlib.Core.List.{Perm, Pairwise}
use mathlib.Core.List.Permᴰ
use csi_driver_nfs_export.Node.Ended.{export_ends}
use csi_driver_nfs_export.Node.Unpublish.{unpublish_volume}
use csi_driver_nfs_export.Node.Unpublished.{IsReleased}
use csi_driver_nfs_export.Controller.Volume.{find_pv}
use csi_driver_nfs_export.Scenario.{
  volume_attributes, attributes, volume, single_writer, app_claim, csi_source, create_request,
  given, healthy, healthy-PollsAsDocumented, publish_request,
}

abbrev missing : Failure
missing = record { message = "not found"; not_exist = true; permission = false }

abbrev taken : Failure
taken = record { message = "already exists"; not_exist = false; permission = false }

-- What is there stays as it is.
abbrev keep_or : Option StatefulSet → Option StatefulSet → Option StatefulSet
keep_or (some def) new = some def
keep_or none new = new

abbrev stored : History → Exports
stored [] ns name = none
stored (Call.create_statefulset ns def ∷ h) n m =
    keep_or (stored h n m) (if ns == n && def.name == m then some def else none)
stored (Call.delete_statefulset ns name ∷ h) n m =
    if ns == n && name == m then none else stored h n m
stored (_ ∷ h) n m = stored h n m

abbrev found_export : Option StatefulSet → Reply StatefulSet
found_export (some def) = given def
found_export none = record {
  value = statefulset_def "nfs-1" "nfs-1" "u-1" "ganesha" "*";
  error = some missing;
}

abbrev accepted_export : Option StatefulSet → StatefulSet → Reply StatefulSet
accepted_export (some present) def = record { value = def; error = some taken }
accepted_export none def = given def

abbrev keeping : Env
keeping = record healthy {
  statefulset = λ h ns name. found_export (stored h ns name);
  created_statefulset = λ h ns def. accepted_export (stored h ns def.name) def;
  pods = λ h ns. given [];
}

keeping-PollsAsDocumented : PollsAsDocumented keeping
keeping-PollsAsDocumented = record { polled = healthy-PollsAsDocumented.polled }

found_lem :
    (o : Option StatefulSet) → (found_export o).error ≡ none → (def : StatefulSet) × (o ≡ some def)
found_lem (some def) q = (def, refl)
found_lem none q = cc

keep_or_new :
    (o : Option StatefulSet) (def : StatefulSet)
    → (new : StatefulSet) × (keep_or o (some def) ≡ some new)
keep_or_new (some old) def = (old, refl)
keep_or_new none def = (def, refl)

created_lem :
    (h : History) (ns : String) (def : StatefulSet)
    → (new : StatefulSet) × (stored (Call.create_statefulset ns def ∷ h) ns def.name ≡ some new)
created_lem h ns def = rw (eq_refl ns, eq_refl def.name) (keep_or_new (stored h ns def.name) def)

kept_lem :
    (h : History) (c : Call) (ns name : String) (def : StatefulSet)
    → KeepsExport name c
    → stored h ns name ≡ some def
    → stored (c ∷ h) ns name ≡ some def
kept_lem h (Call.create_statefulset ns' def') ns name def p q = rw q refl
kept_lem h (Call.delete_statefulset ns' name') ns name def p q = elim (Bool-cases (ns' == ns)) [
  | inl same ↦ rw (same, p, q) refl
  | inr other ↦ rw (other, q) refl
]
kept_lem h _ ns name def p q = q

absent_lem :
    (h : History) (c : Call) (ns name : String)
    → CreatesNothing c
    → stored h ns name ≡ none
    → stored (c ∷ h) ns name ≡ none
absent_lem h (Call.create_statefulset ns' def') ns name p q = absurd p
absent_lem h (Call.delete_statefulset ns' name') ns name p q = elim (Bool-cases (ns' == ns)) [
  | inr other ↦ rw (other, q) refl
  | inl same ↦ elim (Bool-cases (name' == name)) [
    | inl hit ↦ rw (same, hit) refl
    | inr miss ↦ rw (same, miss, q) refl
  ]
]
absent_lem h _ ns name p q = q

keeping-IsExportStore : IsExportStore keeping stored
keeping-IsExportStore = record {
  found = λ h ns name q. found_lem (stored h ns name) q;
  created = λ h ns def q. created_lem h ns def;
  kept = kept_lem;
  deleted = λ h ns name q. rw (eq_refl ns, eq_refl name) refl;
  absent = absent_lem;
}

abbrev published : History
published = calls (publish_volume keeping 0 publish_request [])

publish_runs : publish_volume keeping 0 publish_request [] ≡ (ok tt, published)
unfolding publish_volume check_publish require_capability read_attributes set_attribute
    start_attributes key_of start_export wait_for_export ensure_statefulset wait_for_pod_running
    is_pod_running prepare_target mount_volume local_source find_source is_skipped mount_remote
    ensure_service service_def wait_for_tcp_ready is_tcp_ready report_mount finish_mode ◌>>=◌
publish_runs = refl

-- Another volume is created and its export ended, and the statistics are asked for.
abbrev between : List Operation
between = create create_request ∷ unpublish "nfs-2" "/other" ∷ stats "nfs-1" "/target" ∷ []

abbrev spared : All (SparesVolume "nfs-1") between
spared = (tt, (refl, (tt, tt)))

export_lasts_example :
    (cap : Capability) × (a : Attributes) × (def : StatefulSet) × (publish_request.capability
      ≡ some cap)
    × (read_attributes publish_request.context (start_attributes cap.mount_flags false 0) ≡ ok a)
    × (stored published a.namespace "nfs-1" ≡ some def)
    × (stored (perform_all keeping between published) a.namespace "nfs-1" ≡ some def)
export_lasts_example =
    export_lasts keeping keeping-PollsAsDocumented stored keeping-IsExportStore 0 publish_request []
      published between publish_runs spared

-- The request as the kubelet makes it, with entries on the pod and the volume's own in another order.
abbrev pod_entries : Entries
pod_entries =
    ("csi.storage.k8s.io/pod.name", "app") ∷ ("csi.storage.k8s.io/pod.namespace", "app") ∷ []

abbrev pod_context : Entries
pod_context =
    ("csi.storage.k8s.io/pod.namespace", "app")
    ∷ ("csi.storage.k8s.io/pod.name", "app")
    ∷ volume_attributes

abbrev pod_request : PublishRequest
pod_request = record publish_request { context = pod_context }

pod_entries-IsNoNamespace : All IsNoNamespace pod_entries
unfolding key_of
pod_entries-IsNoNamespace = (λ q. cc, ((λ q. cc), tt))

pod_context-Perm : Perm pod_context (pod_entries ++ volume_attributes)
pod_context-Perm = ∣ Permᴰ.swap refl refl ∣₁

pod_context_apart : Pairwise AreApart pod_context
unfolding key_of
pod_context_apart =
    AllPairs-Pairwise (λ x y. Bool-set _ _) pod_context
      (
        (refl, (refl, (refl, (refl, tt)))),
        ((refl, (refl, (refl, tt))), ((refl, (refl, tt)), ((refl, tt), (tt, tt)))),
      )

abbrev pod_published : History
pod_published = calls (publish_volume keeping 0 pod_request [])

pod_runs : publish_volume keeping 0 pod_request [] ≡ (ok tt, pod_published)
unfolding publish_volume check_publish require_capability read_attributes set_attribute
    start_attributes key_of start_export wait_for_export ensure_statefulset wait_for_pod_running
    is_pod_running prepare_target mount_volume local_source find_source is_skipped mount_remote
    ensure_service service_def wait_for_tcp_ready is_tcp_ready report_mount finish_mode ◌>>=◌
pod_runs = refl

abbrev pod_attributes : Attributes
pod_attributes = record attributes { app_pod = "app"; app_namespace = "app" }

attributes_read :
    read_attributes pod_context (start_attributes ("hard" ∷ []) false 0) ≡ ok pod_attributes
unfolding read_attributes set_attribute start_attributes key_of
attributes_read = refl

released : IsReleased keeping "nfs-1" "/target" volume (perform_all keeping between pod_published)
unfolding find_pv
released = (refl, refl, refl, refl, refl)

export_ends_example :
    ((def : StatefulSet) × (stored (perform_all keeping between pod_published) "backend" "nfs-1"
        ≡ some def))
    × (stored
          (calls (
            unpublish_volume keeping "nfs-1" "/target" (perform_all keeping between pod_published)))
          "backend"
          "nfs-1"
        ≡ none)
export_ends_example =
    export_ends keeping keeping-PollsAsDocumented stored keeping-IsExportStore 0 pod_request
      single_writer pod_attributes [] pod_published between "/target" volume app_claim csi_source
      pod_entries pod_runs refl attributes_read spared released refl refl refl (λ used. used) refl
      pod_entries-IsNoNamespace pod_context-Perm pod_context_apart refl
