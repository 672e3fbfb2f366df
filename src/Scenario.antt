-- ===== src/Scenario.antt =====
-- Concrete environments and requests for the tests: a cluster where all is well, and variants.
use csi_driver_nfs_export.Base.{ℕ, pos, Bool, true, false, [], ◌∷◌, Option, none, some, ◌≡◌, refl}
use csi_driver_nfs_export.Base.Entries.{Entries}
use csi_driver_nfs_export.Api.Objects.{
  Pvc, Pod, Pv, CsiSource, ClaimRef, Failure, Reply, running, probe_success,
}
use csi_driver_nfs_export.Api.Calls.{History}
use csi_driver_nfs_export.Api.Exec.{Outcome, ok, err, panic, Exec}
use csi_driver_nfs_export.Api.Client.{
  Env, Polled, done, broken, timed_out, refused, panicked, PollsAsDocumented,
}
use csi_driver_nfs_export.Controller.Volume.{Capability, CreateRequest}
use csi_driver_nfs_export.Node.Attributes.{Attributes}
use csi_driver_nfs_export.Node.Export.{statefulset_def, service_def}
use csi_driver_nfs_export.Node.Publish.{PublishRequest}

abbrev pub given : {A : Type 0} → A → Reply A
given a = record { value = a; error = none }

abbrev pub slow : Failure
slow = record {
  message = "timed out waiting for the condition";
  not_exist = false;
  permission = false;
}

abbrev pub denied : Failure
denied = record { message = "permission denied"; not_exist = false; permission = true }

-- A polling loop with time for one round.
abbrev round_ended : Bool → Option Failure → Option Failure
round_ended true none = none
round_ended false none = some slow
round_ended b (some f) = some f

abbrev pub finish_poll : Outcome (Reply Bool) × History → Outcome (Option Failure) × History
finish_poll (ok r, h) = (ok (round_ended r.value r.error), h)
finish_poll (err c r, h) = (err c r, h)
finish_poll (panic, h) = (panic, h)

abbrev pub poll_once : ℕ → ℕ → Exec (Reply Bool) → Exec (Option Failure)
poll_once interval timeout condition h = finish_poll (condition h)

round_ended-Polled :
    (condition : Exec (Reply Bool)) (h h' : History) (b : Bool) (o : Option Failure)
    → condition h ≡ (ok (record { value = b; error = o }), h')
    → Polled condition h (ok (round_ended b o), h')
round_ended-Polled condition h h' true none q = done q
round_ended-Polled condition h h' false none q = timed_out q
round_ended-Polled condition h h' true (some f) q = broken q
round_ended-Polled condition h h' false (some f) q = broken q

finish_poll-Polled :
    (condition : Exec (Reply Bool)) (h : History) (r : Outcome (Reply Bool) × History)
    → condition h ≡ r
    → Polled condition h (finish_poll r)
finish_poll-Polled condition h (ok r, h') q = round_ended-Polled condition h h' r.value r.error q
finish_poll-Polled condition h (err c r, h') q = refused q
finish_poll-Polled condition h (panic, h') q = panicked q

abbrev pub data_claim : Pvc
data_claim = record {
  name = "nfs-1";
  uid = "u-1";
  labels = [];
  storage_class_name = "fast";
  access_modes = [];
  storage = pos 1024;
}

abbrev pub app_pod : Pod
app_pod = record {
  name = "app";
  uid = "u-2";
  phase = running;
  annotations = [];
  volumes = record { name = "files"; claim_name = some "app-files" } ∷ [];
}

abbrev pub volume_attributes : Entries
volume_attributes =
    ("datavolumeclaim", "nfs-1") ∷ ("datanamespace", "backend") ∷ ("nfsserverimage", "ganesha") ∷ []

abbrev pub csi_source : CsiSource
csi_source = record { volume_handle = "nfs-1"; volume_attributes = volume_attributes }

abbrev pub app_claim : ClaimRef
app_claim = record { name = "app-files"; namespace = "app" }

abbrev pub volume : Pv
volume = record { name = "pvc-1"; csi = some csi_source; claim_ref = some app_claim }

-- Everything is there, ready, and allowed; the node does not hold the export's volume.
abbrev pub healthy : Env
healthy = record {
  pvc = λ h ns name. given data_claim;
  created_pvc = λ h ns def. given def;
  deleted_pvc = λ h ns name. none;
  pvcs = λ h. given (data_claim ∷ []);
  pvs = λ h. given (volume ∷ []);
  storage_classes = λ h. given [];
  statefulset = λ h ns name. given (statefulset_def name "nfs-1" "u-1" "ganesha" "*");
  created_statefulset = λ h ns def. given def;
  deleted_statefulset = λ h ns name. none;
  service =
      λ h ns name. given (record (service_def name "nfs-1" "u-1") { cluster_ip = "10.0.0.5" });
  created_service = λ h ns def. given def;
  deleted_service = λ h ns name. none;
  pod = λ h ns name. given app_pod;
  updated_pod = λ h ns pod. none;
  pods = λ h ns. given (app_pod ∷ []);
  probed_tcp = λ h host port. given probe_success;
  likely_not_mount_point = λ h path. given true;
  not_mount_point = λ h path. given true;
  mounted = λ h source target fs options. none;
  cleaned_up = λ h path extensive. none;
  made_dirs = λ h path mode. none;
  dir_names = λ h path. given ("kubernetes.io~secret" ∷ []);
  environment = λ h name. "/var/lib/kubelet";
  mode = λ h path. given 493;
  changed_mode = λ h path mode. none;
  metrics = λ h path. given (record {
    available = some (pos 1);
    capacity = some (pos 2);
    used = some (pos 1);
    inodes_free = some (pos 1);
    inodes = some (pos 2);
    inodes_used = some (pos 1);
  });
  poll_immediate = poll_once;
}

pub healthy-PollsAsDocumented : PollsAsDocumented healthy
healthy-PollsAsDocumented = record {
  polled = λ interval timeout condition h. finish_poll-Polled condition h (condition h) refl;
}

-- No mount is allowed.
abbrev pub forbidding : Env
forbidding = record healthy { mounted = λ h source target fs options. some denied }

-- No mount is allowed, and the node holds the export's volume.
abbrev pub forbidding_local : Env
forbidding_local = record forbidding { not_mount_point = λ h path. given false }

-- The claims that do not exist yet can be created.
abbrev pub fresh : Env
fresh = record healthy {
  pvc = λ h ns name. record {
    value = data_claim;
    error = some (record { message = "not found"; not_exist = true; permission = false });
  };
}

abbrev pub single_writer : Capability
single_writer = record { mount_flags = "hard" ∷ [] }

abbrev pub class_parameters : Entries
class_parameters =
    ("datastorageclass", "fast")
    ∷ ("nfshostsallow", "*")
    ∷ ("csi.storage.k8s.io/pvc/namespace", "app")
    ∷ []

abbrev pub create_request : CreateRequest
create_request = record {
  name = "pvc-1";
  parameters = class_parameters;
  capabilities = single_writer ∷ [];
  required_bytes = pos 1024;
}

abbrev pub publish_request : PublishRequest
publish_request = record {
  volume_id = "nfs-1";
  target_path = "/target";
  capability = some single_writer;
  readonly = false;
  context = volume_attributes;
}

abbrev pub attributes : Attributes
attributes = record {
  app_pod = "";
  app_namespace = "";
  claim = "nfs-1";
  namespace = "backend";
  image = "ganesha";
  hosts_allow = "";
  options = "hard" ∷ [];
  permissions = 0;
}
