-- ===== src/Api/Objects.antt =====
-- The Kubernetes objects that pkg/nfsexport reads and writes, with the fields that it uses.
use csi_driver_nfs_export.Base.{String, ℕ, ℤ, List, Option, Bool}
use csi_driver_nfs_export.Base.Entries.{Entries}

pub data AccessMode : Type 0 where
  read_write_once read_only_many read_write_many : AccessMode

-- corev1.PersistentVolumeClaim
pub record Pvc : Type 0 where
  pub name : String
  pub uid : String
  pub labels : Entries
  pub storage_class_name : String
  pub access_modes : List AccessMode
  pub storage : ℤ

-- metav1.OwnerReference
pub record Owner : Type 0 where
  pub api_version : String
  pub kind : String
  pub name : String
  pub uid : String

pub data Protocol : Type 0 where
  tcp udp : Protocol

pub data RestartPolicy : Type 0 where
  restart_always restart_on_failure restart_never : RestartPolicy

pub data PullPolicy : Type 0 where
  pull_always pull_if_not_present pull_never : PullPolicy

pub data UpdateStrategy : Type 0 where
  on_delete rolling_update : UpdateStrategy

pub data ServiceType : Type 0 where
  cluster_ip_type node_port_type load_balancer_type : ServiceType

-- corev1.ContainerPort and corev1.ServicePort
pub record Port : Type 0 where
  pub name : String
  pub protocol : Protocol
  pub port : ℕ

-- corev1.Probe with a TCP socket as its handler
pub record TcpProbe : Type 0 where
  pub port_name : String
  pub initial_delay_seconds : ℕ
  pub period_seconds : ℕ
  pub success_threshold : ℕ

pub record VolumeMount : Type 0 where
  pub name : String
  pub mount_path : String

-- corev1.Volume; the claim's name where the source is a PersistentVolumeClaim
pub record PodVolume : Type 0 where
  pub name : String
  pub claim_name : Option String

pub record Container : Type 0 where
  pub name : String
  pub image : String
  pub pull_policy : PullPolicy
  pub capabilities : List String
  pub env : Entries
  pub ports : List Port
  pub readiness : TcpProbe
  pub mounts : List VolumeMount

-- corev1.PodTemplateSpec
pub record PodTemplate : Type 0 where
  pub labels : Entries
  pub restart_policy : RestartPolicy
  pub grace_seconds : ℕ
  pub containers : List Container
  pub volumes : List PodVolume

pub record StatefulSet : Type 0 where
  pub name : String
  pub labels : Entries
  pub owners : List Owner
  pub replicas : ℕ
  pub update_strategy : UpdateStrategy
  pub service_name : String
  pub selector : Entries
  pub template : PodTemplate

pub record Service : Type 0 where
  pub name : String
  pub labels : Entries
  pub owners : List Owner
  pub selector : Entries
  pub service_type : ServiceType
  pub ports : List Port
  pub cluster_ip : String

-- corev1.PodPhase: the phases that the driver tells apart, and any other text
pub data Phase : Type 0 where
  running failed succeeded : Phase
  other : String → Phase

pub record Pod : Type 0 where
  pub name : String
  pub uid : String
  pub phase : Phase
  pub annotations : Entries
  pub volumes : List PodVolume

-- corev1.CSIPersistentVolumeSource
pub record CsiSource : Type 0 where
  pub volume_handle : String
  pub volume_attributes : Entries

-- corev1.ObjectReference
pub record ClaimRef : Type 0 where
  pub name : String
  pub namespace : String

pub record Pv : Type 0 where
  pub name : String
  pub csi : Option CsiSource
  pub claim_ref : Option ClaimRef

pub record StorageClass : Type 0 where
  pub name : String
  pub annotations : Entries

-- The numbers of volume.Metrics as `Quantity.AsInt64` gives them: none where the number does not
-- fit in an int64.
pub record Metrics : Type 0 where
  pub available : Option ℤ
  pub capacity : Option ℤ
  pub used : Option ℤ
  pub inodes_free : Option ℤ
  pub inodes : Option ℤ
  pub inodes_used : Option ℤ

-- A Go error, with what os.IsNotExist and os.IsPermission say of it.
pub record Failure : Type 0 where
  pub message : String
  pub not_exist : Bool
  pub permission : Bool

-- A Go call's two results. The value is there on failure too: the driver reads it in places.
pub record Reply (A : Type 0) : Type 0 where
  pub value : A
  pub error : Option Failure

-- probe.Result of the TCP probe
pub data ProbeResult : Type 0 where
  probe_success probe_warning probe_failure probe_unknown : ProbeResult
