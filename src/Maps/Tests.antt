-- ===== src/Maps/Tests.antt =====
-- Runs of `replaceWithMap`, and of the theorem on `setKeyValueInMap`, with a fold of the ASCII letters K and k only.
use csi_driver_nfs_export.Base.{◌⊎◌, ◌++◌, ℕ, [], ◌∷◌, some, ◌≡◌, refl, if◌then◌else◌, nat_eq}
use csi_driver_nfs_export.Base.Entries.{Entries}
use csi_driver_nfs_export.Maps.{equal_fold, overwrite, set_key_value, replace_with_map}
use csi_driver_nfs_export.Base.Strings.{replace_all}
use csi_driver_nfs_export.Maps.Setting.{IsUnset, IsReplaced, set_key_value_exactly}

abbrev fold : ℕ → ℕ
fold n = if nat_eq n 107 then 75 else n

abbrev before : Entries
before = ("a", "1") ∷ ("K", "2") ∷ []

set_key_value_exactly_example :
    (m' : Entries) × (set_key_value fold (some before) "k" "3" ≡ some m')
    × (IsReplaced fold "k" "3" before m'
        ⊎ (IsUnset fold "k" "3" before × (m' ≡ before ++ ("k", "3") ∷ [])))
set_key_value_exactly_example = set_key_value_exactly fold "k" "3" before

-- The spelling that is there is kept.
spelling_kept : set_key_value fold (some before) "k" "3" ≡ some (("a", "1") ∷ ("K", "3") ∷ [])
unfolding set_key_value overwrite equal_fold
spelling_kept = refl

-- What `replaceWithMap` gives depends on the order in which the map is visited.
replaced_in_turn : replace_with_map "a" (("a", "b") ∷ ("b", "c") ∷ []) ≡ "c"
unfolding replace_with_map replace_all
replaced_in_turn = refl

replaced_once : replace_with_map "a" (("b", "c") ∷ ("a", "b") ∷ []) ≡ "b"
unfolding replace_with_map replace_all
replaced_once = refl
