-- ===== src/Locks/Tests.antt =====
-- A run of the volume locks on sets that are functions.
use csi_driver_nfs_export.Base.{
  String, ℕ, ◌+◌, Bool, true, false, ◌≡◌, refl, ◌==◌, if◌then◌else◌, ltb, leb,
}
use csi_driver_nfs_export.Locks.{StringSets, IsLawful, new_volume_locks, try_acquire}
use csi_driver_nfs_export.Locks.Exclusion.{Run, started, acquired, Run-excludes}

abbrev function_sets : StringSets
function_sets = record {
  Names = String → Bool;
  none_of = λ v. false;
  has = λ l v. l v;
  inserted = λ l w v. if w == v then true else l v;
  deleted = λ l w v. if w == v then false else l v;
}

function_sets-IsLawful : IsLawful function_sets
function_sets-IsLawful = record {
  has-none_of = λ v. refl;
  has-inserted = λ l w v. refl;
  has-deleted = λ l w v. refl;
}

abbrev locked : String → Bool
locked = (try_acquire function_sets "nfs-1" (new_volume_locks function_sets)).0

abbrev held : String → ℕ
held v = if "nfs-1" == v then 0 + 1 else 0

one_owner : Run function_sets locked held
unfolding try_acquire new_volume_locks
one_owner = acquired "nfs-1" started refl

Run-excludes_example : (leb (held "nfs-1") 1 ≡ true) × (locked "nfs-1" ≡ ltb 0 (held "nfs-1"))
Run-excludes_example = Run-excludes function_sets function_sets-IsLawful one_owner "nfs-1"
