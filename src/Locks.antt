-- ===== src/Locks.antt =====
-- `VolumeLocks` of pkg/nfsexport/utils.go. The set of texts is `sets.String` of apimachinery, which
-- is outside the repository: an interface with the laws that its documentation states. The mutex
-- makes each method one step.
pub mod Exclusion
mod Tests
use csi_driver_nfs_export.Base.{String, Bool, true, false, ◌≡◌, ◌==◌, if◌then◌else◌}

pub record StringSets : Type 1 where
  pub Names : Type 0
  pub none_of : Names
  pub has : Names → String → Bool
  pub inserted : Names → String → Names
  pub deleted : Names → String → Names

pub record IsLawful (S : StringSets) : Type 0 where
  pub has-none_of : (v : String) → S.has S.none_of v ≡ false
  pub has-inserted :
      (l : S.Names) (w v : String) → S.has (S.inserted l w) v ≡ (if w == v then true else S.has l v)
  pub has-deleted :
      (l : S.Names) (w v : String) → S.has (S.deleted l w) v ≡ (if w == v then false else S.has l v)

module _ (S : StringSets) where
  -- `NewVolumeLocks`
  unfoldable pub new_volume_locks : S.Names
  new_volume_locks = S.none_of

  unfoldable pub try_acquire : String → S.Names → S.Names × Bool
  try_acquire id locks = if S.has locks id then (locks, false) else (S.inserted locks id, true)

  unfoldable pub release : String → S.Names → S.Names
  release id locks = S.deleted locks id
