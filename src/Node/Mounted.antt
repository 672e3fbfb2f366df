-- ===== src/Node/Mounted.antt =====
-- What `NodePublishVolume` mounts, from where, and which failure it reports.
use csi_driver_nfs_export.Base.{
  String, ◌<>◌, true, false, List, [], ◌∷◌, ◌++◌, Option, none, some, ◌≡◌, refl, if◌then◌else◌, inl,
  inr, Bool-cases, All, ◌∙◌,
}
use csi_driver_nfs_export.Api.Objects.{Reply, Failure, Service}
use csi_driver_nfs_export.Api.Calls.{Call, History}
use csi_driver_nfs_export.Api.Exec.{
  ok, err, ◌>>=◌, permission_denied, invalid_argument, internal, caused_by,
}
use csi_driver_nfs_export.Base.Strings.{contains}
use csi_driver_nfs_export.Api.Client.{Env}
use csi_driver_nfs_export.Pods.{wait_for_tcp_ready}
use csi_driver_nfs_export.Node.Attributes.{Attributes}
use csi_driver_nfs_export.Node.Mount.{
  is_skipped, mount_point_in, find_source, local_source, pod_volume_dir, ensure_service,
  mount_local, mount_remote, report_mount, finish_mode, mount_volume,
}

find_source-skipped :
    (dir uid : String) (after : List String) (source : String)
    → All (λ n. is_skipped n ≡ true) after
    → find_source dir uid after source ≡ source
unfolding find_source
find_source-skipped dir uid [] source skipped = refl
find_source-skipped dir uid (n ∷ after) source skipped =
    rw (skipped.0, find_source-skipped dir uid after source skipped.1)

-- The last entry that is not skipped names the source, wherever the entries before it point:
-- the loop is not left at the first entry that matches.
pub find_source_last :
    (dir uid : String) (before after : List String) (name source : String)
    → is_skipped name ≡ false
    → All (λ n. is_skipped n ≡ true) after
    → find_source dir uid (before ++ name ∷ after) source ≡ mount_point_in dir uid name
unfolding find_source
find_source_last dir uid [] after name source kept skipped =
    find_source-skipped dir uid after
      (if is_skipped name then source else mount_point_in dir uid name) skipped
    ∙ rw kept
find_source_last dir uid (n ∷ before) after name source kept skipped =
    find_source_last dir uid before after name _ kept skipped

mount_remote_hides :
    (e : Env) (ns : String) (service : Service) (target : String) (options : List String)
    (earlier : Option Failure) (h h' : History)
    → (e.service h ns service.name).error ≡ none
    → wait_for_tcp_ready e
        (e.service h ns service.name).value.cluster_ip
        2049
        60
        (Call.get_service ns service.name ∷ h)
      ≡ (ok none, h')
    → mount_remote e ns service target options earlier h ≡ (
      ok earlier,
      Call.mount ((e.service h ns service.name).value.cluster_ip <> ":/") target "nfs" options ∷ h',
    )
unfolding mount_remote ensure_service ◌>>=◌
mount_remote_hides e ns service target options earlier h h' found ready = rw (found, ready)

-- The steps before the choice between the mounts, for an application pod's volumes in `dir`.
abbrev pub volume_dir : Env → String → History → String
volume_dir e pod_uid h = pod_volume_dir (e.environment h "KUBELET_ROOT") pod_uid

abbrev pub listing : Env → String → History → Reply (List String)
listing e pod_uid h = e.dir_names (Call.getenv "KUBELET_ROOT" ∷ h) (volume_dir e pod_uid h)

abbrev pub after_listing : Env → String → History → History
after_listing e pod_uid h = Call.read_dir (volume_dir e pod_uid h) ∷ Call.getenv "KUBELET_ROOT" ∷ h

abbrev pub source_of : Env → String → String → History → String
source_of e pod_uid claim_uid h =
    local_source (volume_dir e pod_uid h) claim_uid (listing e pod_uid h)

abbrev pub after_test : Env → String → String → History → History
after_test e pod_uid claim_uid h =
    Call.is_not_mount_point (source_of e pod_uid claim_uid h) ∷ after_listing e pod_uid h

-- The result of the NFS mount is lost. When the source is no mount point on this node, the service
-- is there and its port is ready, the handler mounts and goes on, whatever the mount answered, with
-- the failure to list the pod's volumes: it reports that one, and if there is none it goes on to
-- set the mode as after a mount that worked.
pub mount_volume_hides :
    (e : Env) (target : String) (a : Attributes) (service : Service) (pod_uid claim_uid : String)
    (h h' : History)
    → (e.not_mount_point (after_listing e pod_uid h) (source_of e pod_uid claim_uid h)).value ≡ true
    → (e.service (after_test e pod_uid claim_uid h) a.namespace service.name).error ≡ none
    → wait_for_tcp_ready e
        (e.service (after_test e pod_uid claim_uid h) a.namespace service.name).value.cluster_ip
        2049
        60
        (Call.get_service a.namespace service.name ∷ after_test e pod_uid claim_uid h)
      ≡ (ok none, h')
    → mount_volume e target a service pod_uid claim_uid h
      ≡ (report_mount e (listing e pod_uid h).error >>= λ _. finish_mode e target a.permissions) (
          Call.mount
            ((e.service
                (after_test e pod_uid claim_uid h)
                a.namespace
                service.name).value.cluster_ip
              <> ":/")
            target
            "nfs"
            a.options
          ∷ h')
unfolding mount_volume ◌>>=◌
mount_volume_hides e target a service pod_uid claim_uid h h' remote found ready = rw (
  remote,
  mount_remote_hides e a.namespace service target a.options (listing e pod_uid h).error
      (after_test e pod_uid claim_uid h) h' found ready,
)

-- When the source is a mount point on this node and its bind mount fails, the handler reports the
-- failure, with the code that it calls for, and makes no further call.
pub mount_volume_reports :
    (e : Env) (target : String) (a : Attributes) (service : Service) (pod_uid claim_uid : String)
    (h : History) (f : Failure)
    → (e.not_mount_point (after_listing e pod_uid h) (source_of e pod_uid claim_uid h)).value
      ≡ false
    → e.mounted
        (after_test e pod_uid claim_uid h)
        (source_of e pod_uid claim_uid h)
        target
        ""
        ("bind" ∷ [])
      ≡ some f
    → mount_volume e target a service pod_uid claim_uid h ≡ (
      err
          (if f.permission
            then permission_denied
            else if contains f.message "invalid argument"
            then invalid_argument
            else internal)
          (caused_by f),
      Call.mount (source_of e pod_uid claim_uid h) target "" ("bind" ∷ [])
          ∷ after_test e pod_uid claim_uid h,
    )
unfolding mount_volume mount_local report_mount ◌>>=◌
mount_volume_reports e target a service pod_uid claim_uid h f here failed =
    elim (Bool-cases f.permission) [
      | inl p ↦ rw (here, failed, p)
      | inr p ↦ elim (Bool-cases (contains f.message "invalid argument")) [
        | inl c ↦ rw (here, failed, p, c)
        | inr c ↦ rw (here, failed, p, c)
      ]
    ]
