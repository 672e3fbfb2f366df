-- ===== src/Node/Tests.antt =====
-- Runs of the node service's theorems in concrete environments.
use csi_driver_nfs_export.Base.{
  ◌<>◌, ℕ, ◌%◌, false, [], ◌∷◌, none, some, ◌==◌, ◌≡◌, refl, ◌⊎◌, inl, inr, some_inj, if◌then◌else◌,
}
use csi_driver_nfs_export.Base.Strings.{parse_octal}
use csi_driver_nfs_export.Api.Objects.{Service, Pod, Pv, running}
use csi_driver_nfs_export.Api.Calls.{Call, History}
use csi_driver_nfs_export.Api.Exec.{
  ok, err, panic, result, calls, ◌>>=◌, permission_denied, caused_by,
}
use csi_driver_nfs_export.Api.Client.{Env}
use csi_driver_nfs_export.Api.Rules.{Does, Extends}
use csi_driver_nfs_export.Controller.Parameters.{
  Parameters, no_parameters, read_parameters, set_parameter,
}
use csi_driver_nfs_export.Controller.Volume.{
  Capability, Volume, find_pv, create_volume, provision, choose_class, ensure_data_pvc,
}
use csi_driver_nfs_export.Controller.Created.{volume_of}
use csi_driver_nfs_export.Pods.{
  wait_for_pod_running, is_pod_running, wait_for_tcp_ready, is_tcp_ready,
}
use csi_driver_nfs_export.Node.Attributes.{
  Attributes, start_attributes, set_attribute, read_attributes, read_backend, set_backend,
}
use csi_driver_nfs_export.Node.Export.{service_def}
use csi_driver_nfs_export.Node.Mount.{
  is_skipped, mount_point_in, find_source, local_source, file_mode, report_mount, finish_mode,
  mount_volume, chmod_if_mismatch, prepare_target, mount_remote, ensure_service,
}
use csi_driver_nfs_export.Node.Publish.{
  publish_volume, check_publish, require_capability, start_export, wait_for_export,
  ensure_statefulset,
}
use csi_driver_nfs_export.Node.Unpublish.{unpublish_volume}
use csi_driver_nfs_export.Node.Mounted.{
  find_source_last, mount_volume_hides, mount_volume_reports, after_test, source_of,
}
use csi_driver_nfs_export.Node.Published.{IsPublishCall, IsPublishCode, publish_volume-Does}
use csi_driver_nfs_export.Node.Established.{IsSeenRunning, publish_volume_established}
use csi_driver_nfs_export.Node.Served.{AllServed, publish_volume_served}
use csi_driver_nfs_export.Node.Context.{created_context_read}
use csi_driver_nfs_export.Node.Permissions.{read_attributes-file_mode, finish_mode_sets}
use csi_driver_nfs_export.Node.Panics.{unpublish_panics_exactly}
use csi_driver_nfs_export.Node.Unpublished.{
  after_lookup, deletions, IsUsed, IsLookAt, IsReleased, unpublish_keeps_used,
  unpublish_deletes_unused,
}
use csi_driver_nfs_export.Params.{key_of, default_image}
use csi_driver_nfs_export.Scenario.{
  healthy, healthy-PollsAsDocumented, fresh, forbidding, forbidding_local, denied, given, volume,
  csi_source, app_claim, volume_attributes, single_writer, create_request, publish_request,
  attributes, app_pod,
}

find_source_last_example :
    find_source "/dir" "1" ("a" ∷ "kubernetes.io~csi" ∷ "kubernetes.io~secret" ∷ []) ""
    ≡ mount_point_in "/dir" "1" "kubernetes.io~csi"
unfolding is_skipped
find_source_last_example =
    find_source_last "/dir" "1" ("a" ∷ []) ("kubernetes.io~secret" ∷ []) "kubernetes.io~csi" "" refl
      (refl, tt)

abbrev service : Service
service = service_def "nfs-1" "nfs-1" "u-1"

-- The mount was forbidden, and the handler succeeds.
mount_volume_hides_example :
    mount_volume forbidding "/target" attributes service "u-2" "u-1" []
    ≡ (report_mount forbidding none >>= λ _. finish_mode forbidding "/target" 0) (
        Call.mount "10.0.0.5:/" "/target" "nfs" ("hard" ∷ [])
        ∷ Call.probe_tcp "10.0.0.5" 2049
        ∷ Call.get_service "backend" "nfs-1"
        ∷ after_test forbidding "u-2" "u-1" [])
unfolding service_def wait_for_tcp_ready is_tcp_ready ◌>>=◌
mount_volume_hides_example =
    mount_volume_hides forbidding "/target" attributes service "u-2" "u-1" []
      (Call.probe_tcp "10.0.0.5" 2049
        ∷ Call.get_service "backend" "nfs-1"
        ∷ after_test forbidding "u-2" "u-1" [])
      refl refl refl

failed_bind_reported : mount_volume forbidding_local "/target" attributes service "u-2" "u-1" [] ≡ (
  err permission_denied (caused_by denied),
  Call.mount (source_of forbidding_local "u-2" "u-1" []) "/target" "" ("bind" ∷ [])
      ∷ after_test forbidding_local "u-2" "u-1" [],
)
failed_bind_reported =
    mount_volume_reports forbidding_local "/target" attributes service "u-2" "u-1" [] denied refl
      refl

attributes_read :
    read_attributes volume_attributes (start_attributes ("hard" ∷ []) false 0) ≡ ok attributes
unfolding read_attributes set_attribute start_attributes key_of
attributes_read = refl

publish_volume-Does_example :
    Does
      (IsPublishCall publish_request attributes)
      IsPublishCode
      (publish_volume healthy 0 publish_request)
publish_volume-Does_example =
    publish_volume-Does healthy healthy-PollsAsDocumented publish_request attributes 0 single_writer
      refl attributes_read

publish_volume_served_example :
    AllServed healthy (calls (publish_volume healthy 0 publish_request []))
publish_volume_served_example =
    publish_volume_served healthy healthy-PollsAsDocumented 0 publish_request [] tt

abbrev published : History
published = calls (publish_volume healthy 0 publish_request [])

publish_runs : publish_volume healthy 0 publish_request [] ≡ (ok tt, published)
unfolding publish_volume check_publish require_capability read_attributes set_attribute
    start_attributes key_of start_export wait_for_export ensure_statefulset wait_for_pod_running
    is_pod_running prepare_target mount_volume local_source find_source is_skipped mount_remote
    ensure_service service_def wait_for_tcp_ready is_tcp_ready report_mount finish_mode ◌>>=◌
publish_runs = refl

publish_volume_established_example :
    (cap : Capability) × (a : Attributes) × (g : History) × (some single_writer ≡ some cap)
    × (read_attributes volume_attributes (start_attributes cap.mount_flags false 0) ≡ ok a)
    × ((healthy.pvc [] a.namespace a.claim).error ≡ none)
    × IsSeenRunning healthy a.namespace ("nfs-1" <> "-0") g
    × Extends (IsPublishCall publish_request a) [] (Call.get_pod a.namespace ("nfs-1" <> "-0") ∷ g)
    × Extends
        (IsPublishCall publish_request a)
        (Call.get_pod a.namespace ("nfs-1" <> "-0") ∷ g)
        published
publish_volume_established_example =
    publish_volume_established healthy healthy-PollsAsDocumented 0 publish_request [] published
      publish_runs

abbrev created : Volume
created =
    volume_of create_request
      (record no_parameters { data_sc = "fast"; hosts_allow = "*"; claim_namespace = "app" })

create_answers : result (create_volume fresh create_request []) ≡ ok created
unfolding create_volume read_parameters set_parameter key_of ◌>>=◌ provision choose_class
    ensure_data_pvc
create_answers = refl

created_context_read_example :
    (p : Parameters) × (read_parameters create_request.parameters no_parameters ≡ ok p)
    × (read_attributes created.volume_context (start_attributes [] false 0)
        ≡ ok (record (start_attributes [] false 0) {
          claim = created.volume_id;
          namespace = p.claim_namespace;
          image = if p.server_image == "" then default_image else p.server_image;
          hosts_allow = p.hosts_allow;
        }))
    × (read_backend created.volume_context (record { claim = ""; namespace = "" })
        ≡ record { claim = created.volume_id; namespace = p.claim_namespace })
created_context_read_example =
    created_context_read fresh create_request [] [] false 0 create_answers

released : IsReleased healthy "nfs-1" "/target" volume []
unfolding find_pv
released = (refl, refl, refl, refl, refl)

unpublish_keeps_used_example :
    unpublish_volume healthy "nfs-1" "/target" []
    ≡ (ok tt, Call.list_pods "app" ∷ after_lookup "/target" [])
unpublish_keeps_used_example =
    unpublish_keeps_used healthy "nfs-1" "/target" volume [] app_claim released refl refl refl
      (inl (inl refl))

-- The claim's pod is gone; another pod of the namespace uses another claim.
abbrev other_pod : Pod
other_pod = record app_pod {
  name = "other";
  volumes = record { name = "files"; claim_name = some "other-files" } ∷ [];
}

abbrev abandoned : Env
abandoned = record healthy { pods = λ h ns. given (other_pod ∷ []) }

abandoned-IsReleased : IsReleased abandoned "nfs-1" "/target" volume []
unfolding find_pv
abandoned-IsReleased = (refl, refl, refl, refl, refl)

unused : IsUsed "app-files" (other_pod ∷ []) → ⊥
unused (inl (inl q)) = let wrong : "other-files" ≡ "app-files" = some_inj q in cc
unused (inl (inr never)) = never
unused (inr never) = never

unpublish_deletes_unused_example :
    (result (unpublish_volume abandoned "nfs-1" "/target" []) ≡ ok tt)
    × Extends
        (IsLookAt "backend" "nfs-1-0")
        (deletions "nfs-1" "backend" "app" "/target" [])
        (calls (unpublish_volume abandoned "nfs-1" "/target" []))
    × ((abandoned.pod (deletions "nfs-1" "backend" "app" "/target" []) "backend" "nfs-1-0").error
          ≡ none
        → (abandoned.pod
            (deletions "nfs-1" "backend" "app" "/target" [])
            "backend"
            "nfs-1-0").value.phase
          ≡ running
        → calls (unpublish_volume abandoned "nfs-1" "/target" [])
          ≡ Call.get_pod "backend" "nfs-1-0" ∷ deletions "nfs-1" "backend" "app" "/target" [])
unfolding read_backend set_backend key_of
unpublish_deletes_unused_example =
    unpublish_deletes_unused abandoned "nfs-1" "/target" volume []
      (record { polled = healthy-PollsAsDocumented.polled }) app_claim csi_source "backend"
      abandoned-IsReleased refl refl refl unused refl refl

pod_waited_for :
    calls (unpublish_volume abandoned "nfs-1" "/target" [])
    ≡ Call.get_pod "backend" "nfs-1-0" ∷ deletions "nfs-1" "backend" "app" "/target" []
pod_waited_for = let (_, _, once) = unpublish_deletes_unused_example in once refl refl

abbrev unbound : Pv
unbound = record volume { claim_ref = none }

abbrev unbinding : Env
unbinding = record healthy { pvs = λ h. given (unbound ∷ []) }

unbinding-IsReleased : IsReleased unbinding "nfs-1" "/target" unbound []
unfolding find_pv
unbinding-IsReleased = (refl, refl, refl, refl, refl)

unpublish_panics_exactly_example :
    (result (unpublish_volume unbinding "nfs-1" "/target" []) ≡ panic
      → (pv : Pv) × IsReleased unbinding "nfs-1" "/target" pv [] × (pv.claim_ref ≡ none))
    × ((pv : Pv)
        → IsReleased unbinding "nfs-1" "/target" pv []
        → pv.claim_ref ≡ none
        → unpublish_volume unbinding "nfs-1" "/target" [] ≡ (panic, after_lookup "/target" []))
unpublish_panics_exactly_example =
    unpublish_panics_exactly unbinding (record { polled = healthy-PollsAsDocumented.polled })
      "nfs-1" "/target" []

unbinding_panics :
    unpublish_volume unbinding "nfs-1" "/target" [] ≡ (panic, after_lookup "/target" [])
unbinding_panics = unpublish_panics_exactly_example.1 unbound unbinding-IsReleased refl

abbrev with_mode : Attributes
with_mode = record attributes { permissions = 493 }

mode_read : read_attributes (("mountPermissions", "755") ∷ []) attributes ≡ ok with_mode
unfolding read_attributes set_attribute key_of parse_octal
mode_read = refl

read_attributes-file_mode_example : file_mode 493 ≡ 493
read_attributes-file_mode_example =
    read_attributes-file_mode (("mountPermissions", "755") ∷ []) attributes with_mode refl mode_read

abbrev wanted : ℕ
wanted = 448

mode_set :
    finish_mode healthy "/target" 448 []
    ≡ (ok tt, Call.chmod "/target" 448 ∷ Call.lstat "/target" ∷ [])
unfolding finish_mode chmod_if_mismatch file_mode ◌>>=◌
mode_set = refl

mode_was_set :
    (wanted ≡ 0)
    ⊎ (((healthy.mode [] "/target").error ≡ none)
        × (((healthy.mode [] "/target").value % 512 ≡ file_mode 448)
            ⊎ (healthy.changed_mode (Call.lstat "/target" ∷ []) "/target" (file_mode 448) ≡ none)))
mode_was_set =
    finish_mode_sets healthy "/target" 448 [] (Call.chmod "/target" 448 ∷ Call.lstat "/target" ∷ [])
      mode_set
