-- ===== src/Node/Unordered.antt =====
-- `NodePublishVolume` on Go's maps, which have no order.
use csi_driver_nfs_export.Base.{string_set, ℕ, inl, inr, Option-cases, ◌≡◌, refl}
use csi_driver_nfs_export.Base.Entries.{Entries}
use csi_driver_nfs_export.Base.GoMaps.{GoMap, IsAnswerOf, has_answer}
use csi_driver_nfs_export.Api.Calls.{History}
use csi_driver_nfs_export.Api.Exec.{Outcome, ◌>>=◌}
use csi_driver_nfs_export.Api.Client.{Env}
use csi_driver_nfs_export.Node.Attributes.{start_attributes}
use csi_driver_nfs_export.Node.Order.{AreApart, read_attributes-perm}
use csi_driver_nfs_export.Node.Publish.{
  PublishRequest, require_capability, check_publish, publish_volume,
}
use mathlib.Core.List.{Perm, Pairwise}

answer_set : IsSet (Outcome (Unit {0}) × History)
answer_set = hlevel string_set

check_publish-perm :
    (e : Env) (permissions : ℕ) (req : PublishRequest) (h : History) (m m' : Entries)
    → Perm m m'
    → Pairwise AreApart m
    → check_publish e permissions (record req { context = m }) h
      ≡ check_publish e permissions (record req { context = m' }) h
unfolding check_publish require_capability ◌>>=◌
check_publish-perm e permissions req h m m' same apart = elim (Option-cases req.capability) [
  | inl missing ↦ rw missing refl
  | inr (cap, given) ↦
      rw
        (
          given,
          read_attributes-perm same apart
              (start_attributes cap.mount_flags req.readonly permissions),
        )
        refl
]

publish_volume-perm :
    (e : Env) (permissions : ℕ) (req : PublishRequest) (h : History) (m m' : Entries)
    → Perm m m'
    → Pairwise AreApart m
    → publish_volume e permissions (record req { context = m }) h
      ≡ publish_volume e permissions (record req { context = m' }) h
unfolding publish_volume ◌>>=◌
publish_volume-perm e permissions req h m m' same apart =
    rw (check_publish-perm e permissions req h m m' same apart) refl

-- Go leaves the order open in which a map is visited. Of a volume context no two entries of which set
-- the same variable, `NodePublishVolume` has exactly one outcome with its calls, which all orders of
-- visiting give.
pub publish_volume_unordered :
    (e : Env) (permissions : ℕ) (req : PublishRequest) (h : History) (map : GoMap AreApart)
    → IsContr (
        (r : Outcome (Unit {0}) × History) × IsAnswerOf AreApart map
          (λ m. publish_volume e permissions (record req { context = m }) h)
          r)
publish_volume_unordered e permissions req h =
    has_answer AreApart answer_set
      (λ m. publish_volume e permissions (record req { context = m }) h)
      (publish_volume-perm e permissions req h)
