-- ===== src/Node/Recovered.antt =====
-- That `NodePublishVolume` succeeds in the end: the kubelet calls it again and again, and what the
-- calls before have left is no obstacle.
use csi_driver_nfs_export.Base.{none, arith, true, false, some, ◌==◌, ◌≡◌, ◌⊎◌, inl, inr, ℕ}
use csi_driver_nfs_export.Api.Objects.{Failure}
use csi_driver_nfs_export.Api.Calls.{History}
use csi_driver_nfs_export.Api.Exec.{Code, Reason, ok, err, ◌>>=◌}
use csi_driver_nfs_export.Api.Client.{Env, PollsAsDocumented}
use csi_driver_nfs_export.Api.Rules.{Extends-trans}
use csi_driver_nfs_export.Api.Lands.{Later}
use csi_driver_nfs_export.Controller.Volume.{Capability}
use csi_driver_nfs_export.Node.Able.{
  IsExportable, IsPreparable, IsMountable, IsSeen, IsUnlisted, WasMounted, IsMounted,
  IsMounted-Later,
}
use csi_driver_nfs_export.Node.Attempt.{publish_ends, publish_seen}
use csi_driver_nfs_export.Node.Attributes.{Attributes, start_attributes, read_attributes}
use csi_driver_nfs_export.Node.Refused.{is_complete}
use csi_driver_nfs_export.Node.Publish.{
  PublishRequest, require_capability, check_publish, publish_volume,
}

module _ (e : Env) where
  complete_checks :
      (permissions : ℕ) (req : PublishRequest) (given : Capability) (a : Attributes) (h : History)
      → is_complete permissions req ≡ true
      → req.capability ≡ some given
      → read_attributes req.context (start_attributes given.mount_flags req.readonly permissions)
        ≡ ok a
      → check_publish e permissions req h ≡ (ok a, h)
  unfolding check_publish require_capability ◌>>=◌
  complete_checks permissions req given a h complete has read =
      let all = rw (has, read) at complete in
      let id : (req.volume_id == "") ≡ false = ground arith in
      let target : (req.target_path == "") ≡ false = ground arith in
      let claim : (a.claim == "") ≡ false = ground arith in
      let ns : (a.namespace == "") ≡ false = ground arith in rw (has, id, target, read, claim, ns)

module _ (e : Env) (polls : PollsAsDocumented e) where
  -- The polling loop does what its documentation says, and at every time from the calls `h` on: the
  -- data claim is there; the StatefulSet of the volume is there in the data namespace or may be
  -- created, and its pod is found running; the target can be looked at or is missing and may be made,
  -- and its mode can be read and changed; the Service is there or may be created, every NFS server
  -- answers the first probe, and mounts at the target are accepted; and when one was accepted the
  -- target is found a mount point. Then every later `NodePublishVolume` of a complete request, whatever
  -- the calls before it were and left, either succeeds, on its way having found the target a mount
  -- point already or had a mount there accepted; or a mount there was accepted but the listing of a
  -- directory had failed, as on a node that does not run the export's pod, and although the call
  -- fails, every call of the request after it succeeds.
  pub publish_volume_recovers :
      (permissions : ℕ) (req : PublishRequest) (given : Capability) (a : Attributes) (h : History)
      → is_complete permissions req ≡ true
      → req.capability ≡ some given
      → read_attributes req.context (start_attributes given.mount_flags req.readonly permissions)
        ≡ ok a
      → ((g : History) → Later h g → (e.pvc g a.namespace a.claim).error ≡ none)
      → ((g : History) → Later h g → IsExportable e g req.volume_id a.namespace)
      → ((g : History) → Later h g → IsPreparable e g req.target_path)
      → ((g : History) → Later h g → IsMountable e g req.volume_id req.target_path a.namespace)
      → ((g : History) → IsMounted e req.target_path h g → IsSeen e req.target_path g)
      → (g : History) → Later h g
      → ((g' : History) × (publish_volume e permissions req g ≡ (ok tt, g'))
          × (WasMounted e req.target_path g g' ⊎ IsMounted e req.target_path g g'))
        ⊎ ((c : Code) × (k : Reason) × (g' : History) × (publish_volume e permissions req g
              ≡ (err c k, g'))
            × IsMounted e req.target_path g g'
            × ((f : Failure) × IsUnlisted e f g g')
            × ((g2 : History)
                → Later g' g2
                → (g3 : History) × (publish_volume e permissions req g2 ≡ (ok tt, g3))))
  publish_volume_recovers permissions req given a h complete has read claimed exportable preparable
        mountable seen g since =
      let checked =
        λ (g : History). complete_checks e permissions req given a g complete has read in
      elim (publish_ends e polls permissions req a g (checked g) (claimed g since)
        (λ g1 l. exportable g1 (Extends-trans since l))
        (λ g1 l. preparable g1 (Extends-trans since l))
        λ g1 l. mountable g1 (Extends-trans since l)) [
          | inl (g', runs, _, mounted) ↦ inl (g', runs, mounted)
          | inr (c, k, g', runs, later, mounted, unlisted) ↦ inr (
            c,
            k,
            g',
            runs,
            mounted,
            unlisted,
            λ g2 l2.
                let till = Extends-trans since (Extends-trans later l2) in
                publish_seen e polls permissions req a g2 (checked g2) (claimed g2 till)
                  (λ g3 l3. exportable g3 (Extends-trans till l3))
                  λ g3 l3.
                    seen g3 (IsMounted-Later e req.target_path since (Extends-trans l2 l3) mounted),
          )
        ]
