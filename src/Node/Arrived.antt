-- ===== src/Node/Arrived.antt =====
-- From CreateVolume to the mount.
use csi_driver_nfs_export.Base.{ℕ, false, List, some, ◌==◌, ◌≡◌, refl}
use csi_driver_nfs_export.Api.Calls.{History}
use csi_driver_nfs_export.Api.Exec.{ok}
use csi_driver_nfs_export.Api.Client.{Env, PollsAsDocumented}
use csi_driver_nfs_export.Api.Lands.{Later}
use csi_driver_nfs_export.Controller.Lasting.{create_all}
use csi_driver_nfs_export.Controller.Parameters.{Parameters, no_parameters, read_parameters}
use csi_driver_nfs_export.Controller.Store.{Claims, IsClaimStore}
use csi_driver_nfs_export.Controller.Volume.{Capability, CreateRequest, Volume, create_volume}
use csi_driver_nfs_export.Node.Able.{IsExportable, IsPreparable, IsMountable}
use csi_driver_nfs_export.Node.Composed.{IsContextOf, created_then_published}
use csi_driver_nfs_export.Node.Publish.{PublishRequest, publish_volume}
use csi_driver_nfs_export.Node.Attempt.{AttemptEnds, publish_ends}

module _ (e : Env) (polls : PollsAsDocumented e) (claims : History → Claims)
    (store : IsClaimStore e claims) where
  -- A volume was created on a claim store that nobody else writes, in a namespace that is not empty,
  -- and further ones were created. The polling loop does what its documentation says, and at every
  -- time from then on: the StatefulSet of the volume is there in that namespace or may be created, and
  -- its pod is found running; the target can be looked at or is missing and may be made, and its mode
  -- can be read and changed; the Service is there or may be created, every NFS server answers the first
  -- probe, and mounts at the target are accepted. Take the request to publish the volume, with a
  -- capability, its identifier, a target path, and in any order the entries of its context and entries
  -- on the pod, no two of which set the same variable. Either it succeeds, and the target was found a
  -- mount point already, or a mount there was accepted; or it fails although a mount there was
  -- accepted, and the listing of a directory had failed, as on a node that does not run the export's
  -- pod.
  pub created_volume_mounts :
      (req : CreateRequest) (p : Parameters) (reqs : List CreateRequest) (h h' : History)
      (vol : Volume) (permissions : ℕ) (wanted : PublishRequest) (cap : Capability)
      → read_parameters req.parameters no_parameters ≡ ok p
      → (p.claim_namespace == "") ≡ false
      → create_volume e req h ≡ (ok vol, h')
      → wanted.volume_id ≡ vol.volume_id
      → IsContextOf vol wanted
      → wanted.capability ≡ some cap
      → (vol.volume_id == "") ≡ false
      → (wanted.target_path == "") ≡ false
      → ((g : History)
          → Later (create_all e reqs h').1 g
          → IsExportable e g wanted.volume_id p.claim_namespace)
      → ((g : History) → Later (create_all e reqs h').1 g → IsPreparable e g wanted.target_path)
      → ((g : History)
          → Later (create_all e reqs h').1 g
          → IsMountable e g wanted.volume_id wanted.target_path p.claim_namespace)
      → AttemptEnds e wanted.target_path
          (create_all e reqs h').1
          (publish_volume e permissions wanted (create_all e reqs h').1)
  created_volume_mounts req p reqs h h' vol permissions wanted cap read spaced made id context has
        named target exportable preparable mountable =
      let (claim, a, checked, is_claim, is_ns, there) =
        created_then_published e claims store req p reqs h h' vol permissions wanted cap read spaced
          made id context has named target in
      publish_ends e polls permissions wanted a _ checked (rw (is_claim, is_ns, there) refl)
        (rw is_ns exportable) preparable (rw is_ns mountable)
