-- ===== src/Maps.antt =====
-- The helpers on string maps of pkg/nfsexport/utils.go, and its small tests on paths and servers.
pub mod Setting
mod Tests
use csi_driver_nfs_export.Base.{
  String, ◌<>◌, ℕ, Bool, true, false, ◌&&◌, [], ◌∷◌, Option, none, some, ◌==◌, if◌then◌else◌,
  nat_eq,
}
use csi_driver_nfs_export.Base.Strings.{to_lower, replace_all}
use csi_driver_nfs_export.Base.Entries.{Entries, assign}
use csi_driver_nfs_export.Api.Objects.{Failure, Reply}
use csi_driver_nfs_export.Params.{mount_options_field}
use Prim.Native.Char.{code}

-- `getMountOptions`
unfoldable pub get_mount_options : Entries → String
unfolding to_lower
get_mount_options [] = ""
get_mount_options ((k, v) ∷ m) =
    if to_lower k == mount_options_field then v else get_mount_options m

-- `replaceWithMap`
unfoldable pub replace_with_map : String → Entries → String
unfolding replace_all
replace_with_map str [] = str
replace_with_map str ((k, v) ∷ m) =
    replace_with_map (if k == "" then str else replace_all str k v) m

-- Case folding is the Unicode table of Go's `unicode` package: the least code point among those
-- that differ from a code point in case only.
module _ (fold : ℕ → ℕ) where
  -- strings.EqualFold
  unfoldable pub equal_fold : String → String → Bool
  equal_fold String.[] String.[] = true
  equal_fold (String.◌∷◌ c s) (String.◌∷◌ d t) =
      nat_eq (fold (code c)) (fold (code d)) && equal_fold s t
  equal_fold _ _ = false

  -- The loop of `setKeyValueInMap`; none where no key of the map matches.
  unfoldable pub overwrite : String → String → Entries → Option Entries
  unfolding equal_fold
  overwrite key value [] = none
  overwrite key value ((k, v) ∷ m) =
      let rest = overwrite key value m in
      if equal_fold k key
      then some ((k, value) ∷ m)
      else elim rest [ none ↦ none | some m' ↦ some ((k, v) ∷ m') ]

  -- `setKeyValueInMap`; none is the nil map, which stays as it is.
  unfoldable pub set_key_value : Option Entries → String → String → Option Entries
  unfolding overwrite assign
  set_key_value none key value = none
  set_key_value (some m) key value = elim (overwrite key value m) [
    | none ↦ some (assign key value m)
    | some m' ↦ some m'
  ]

-- `getServerFromSource`; whether a text is an IPv6 address is for `netutil` to say.
unfoldable pub get_server_from_source : (String → Bool) → String → String
get_server_from_source is_ipv6 server = if is_ipv6 server then "[" <> server <> "]" else server

-- `IsCorruptedDir`; mount-utils has the two functions that it calls.
unfoldable pub is_corrupted_dir : (String → Reply Bool) → (Failure → Bool) → String → Bool
is_corrupted_dir path_exists is_corrupted_mnt dir = elim (path_exists dir).error [
  | none ↦ false
  | some f ↦ is_corrupted_mnt f
]

-- `dirExists` of k8utils.go; the reply of os.Stat says whether it found a directory.
unfoldable pub dir_exists : (String → Reply Bool) → String → Bool
dir_exists stat dirname =
    let info = stat dirname in elim info.error [ none ↦ info.value | some _ ↦ false ]
