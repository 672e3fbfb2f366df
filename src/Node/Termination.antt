-- ===== src/Node/Termination.antt =====
-- That the two operations of the node which wait come to an end.
use csi_driver_nfs_export.Base.{String, ◌<>◌, ℕ, ◌+◌, true, ◌≡◌, refl, leb}
use csi_driver_nfs_export.Base.Entries.{Entries}
use csi_driver_nfs_export.Api.Objects.{Pv}
use csi_driver_nfs_export.Api.Calls.{History}
use csi_driver_nfs_export.Api.Exec.{calls}
use csi_driver_nfs_export.Api.Client.{Env}
use csi_driver_nfs_export.Api.Takes.{
  call_count, Takes, Takes-mono, Takes-pure, Takes-raise, Takes-nil_pointer, Takes-call, Takes-if,
  Takes-raise_if, Takes-on_option, Takes-bind, PollsInTime,
}
use csi_driver_nfs_export.Controller.Volume.{get_pv_by_id}
use csi_driver_nfs_export.Node.Bounded.{wait_for_pod_running-Takes, publish_volume-Takes}
use csi_driver_nfs_export.Node.Publish.{PublishRequest, publish_volume}
use csi_driver_nfs_export.Node.Unpublish.{
  is_in_use, delete_export, release_unused, unpublish_volume,
}

module _ (e : Env) (polls : PollsInTime e) where
  is_in_use-Takes : (claim ns : String) → Takes 1 (is_in_use e claim ns)
  unfolding is_in_use
  is_in_use-Takes claim ns =
      Takes-if 1 _ _ _ (Takes-bind 1 0 _ _ (Takes-call _ _) λ listed. Takes-pure _)
        (Takes-mono 0 1 refl (Takes-pure _))

  delete_export-Takes :
      (id : String) (attributes : Entries) → Takes 304 (delete_export e id attributes)
  unfolding delete_export
  delete_export-Takes id attributes = Takes-bind 1 303 _ _ (Takes-call _ _) λ _.
      Takes-bind 1 302 _ _ (Takes-call _ _) λ _.
        Takes-bind 302 0 _ _ (wait_for_pod_running-Takes e polls _ (id <> "-0") 300)
          λ _. Takes-pure tt

  release_unused-Takes : (id : String) (pv : Pv) → Takes 305 (release_unused e id pv)
  unfolding release_unused
  release_unused-Takes id pv =
      Takes-on_option 305 _ _ _ (Takes-mono 0 305 refl Takes-nil_pointer) λ ref.
        Takes-bind 1 304 _ _ (is_in_use-Takes ref.name ref.namespace) λ used.
          Takes-if 304 used _ _ (Takes-mono 0 304 refl (Takes-pure tt)) (
            Takes-on_option 304 _ _ _ (Takes-mono 0 304 refl Takes-nil_pointer)
              λ csi. delete_export-Takes id csi.volume_attributes)

  get_pv_by_id-Takes : (id : String) → Takes 1 (get_pv_by_id e id)
  unfolding get_pv_by_id
  get_pv_by_id-Takes id = Takes-bind 1 0 _ _ (Takes-call _ _) λ list. Takes-pure _

  unpublish_volume-Takes : (id target : String) → Takes 307 (unpublish_volume e id target)
  unfolding unpublish_volume
  unpublish_volume-Takes id target = Takes-bind 0 307 _ _ (Takes-raise_if _ _ _) λ _.
      Takes-bind 0 307 _ _ (Takes-raise_if _ _ _) λ _.
        Takes-bind 1 306 _ _ (Takes-call _ _) λ failure.
          Takes-bind 0 306 _ _ (Takes-on_option 0 _ _ _ (Takes-pure tt) λ f. Takes-raise _ _) λ _.
            Takes-bind 1 305 _ _ (get_pv_by_id-Takes id) λ found.
              Takes-on_option 305 _ _ _ (Takes-mono 0 305 refl (Takes-pure tt))
                (release_unused-Takes id)

  -- If the polling loop checks its condition only at once, every second and at the end of its time,
  -- then whatever the calls answer and however the handler ends, `NodePublishVolume` has made at most
  -- 378 of them, and `NodeUnpublishVolume` at most 307.
  pub node_calls_end :
      (permissions : ℕ) (req : PublishRequest) (id target : String) (h : History)
      → (leb (call_count (calls (publish_volume e permissions req h))) (call_count h + 378) ≡ true)
        × (leb (call_count (calls (unpublish_volume e id target h))) (call_count h + 307) ≡ true)
  node_calls_end permissions req id target h = (
    (publish_volume-Takes e polls permissions req).bound h,
    (unpublish_volume-Takes id target).bound h,
  )
