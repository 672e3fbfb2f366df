-- ===== src/Node/Permissions.antt =====
-- The permissions that `NodePublishVolume` reads, and the mode that it sets.
use csi_driver_nfs_export.Base.{
  nothing, String, ℕ, ◌+◌, ◌*◌, ◌-◌, ◌<◌, ◌%◌, ◌^◌, true, false, ◌&&◌, [], ◌∷◌, Option, none, some,
  ◌==◌, ◌≡◌, refl, arith, ltb, leb, Bool-cases, inl, inr, Option-cases, ◌⊎◌,
}
use csi_driver_nfs_export.Base.Strings.{parse_digits, parse_octal}
use csi_driver_nfs_export.Base.Entries.{Entries}
use csi_driver_nfs_export.Api.Calls.{Call, History}
use csi_driver_nfs_export.Api.Exec.{ok, err, invalid_argument, invalid_permissions, ◌>>=◌}
use csi_driver_nfs_export.Api.Client.{Env}
use csi_driver_nfs_export.Node.Attributes.{Attributes, set_attribute, read_attributes}
use csi_driver_nfs_export.Node.Mount.{chmod_if_mismatch, file_mode, finish_mode}
use csi_driver_nfs_export.Params.{Key, key_of}
use native.Mathlib.Nat.{mod-eq_of_lt}
use Prim.Native.Char.{code}

below : (n : ℕ) → leb (2 ^ 32) n ≡ false → ltb n (2 ^ 32) ≡ true
below n q = ground arith

parse_digits_bound :
    (s : String) (n m : ℕ)
    → ltb n (2 ^ 32) ≡ true
    → parse_digits n s ≡ some m
    → ltb m (2 ^ 32) ≡ true
unfolding parse_digits
parse_digits_bound String.[] n m small q = ground arith
parse_digits_bound (String.◌∷◌ c s) n m small q =
    let n' = n * 8 + (code c - 48) in
    elim (Bool-cases (leb 48 (code c) && leb (code c) 55)) [
      | inl digit ↦ elim (Bool-cases (leb (2 ^ 32) n')) [
        | inl large ↦ absurd (nothing (rw (digit, large) at q))
        | inr fits ↦ parse_digits_bound s n' m (below n' fits) (rw (digit, fits) at q)
      ]
      | inr other ↦ absurd (nothing (rw other at q))
    ]

-- A text that is read as an octal number gives a number of 32 bits.
parse_octal_bound : (s : String) (m : ℕ) → parse_octal s ≡ some m → ltb m (2 ^ 32) ≡ true
unfolding parse_octal
parse_octal_bound s m q = elim (Bool-cases (s == "")) [
  | inl empty ↦ absurd (nothing (rw empty at q))
  | inr given ↦ parse_digits_bound s 0 m refl (rw given at q)
]

set_attribute_bound :
    (k : Key) (v : String) (a a' : Attributes)
    → ltb a.permissions (2 ^ 32) ≡ true
    → set_attribute k v a ≡ some a'
    → ltb a'.permissions (2 ^ 32) ≡ true
unfolding set_attribute
set_attribute_bound k v a a' small q = elim (Option-cases (parse_octal v)) [
  | inl bad ↦ ground arith
  | inr (n, read) ↦ let bound = parse_octal_bound v n read in ground arith
]

read_attributes_ok :
    (m : Entries) (v : String) (o : Option Attributes) {a' : Attributes}
    → elim o [ none ↦ err invalid_argument (invalid_permissions v) | some a ↦ read_attributes m a ]
      ≡ ok a'
    → (a : Attributes) × (o ≡ some a) × (read_attributes m a ≡ ok a')
read_attributes_ok m v none q = cc
read_attributes_ok m v (some a) q = (a, refl, q)

read_attributes_small :
    (m : Entries) (a a' : Attributes)
    → ltb a.permissions (2 ^ 32) ≡ true
    → read_attributes m a ≡ ok a'
    → ltb a'.permissions (2 ^ 32) ≡ true
unfolding read_attributes
read_attributes_small [] a a' small q = let same : a ≡ a' = cc in rw (← same) small
read_attributes_small ((k, v) ∷ m) a a' small q =
    let (b, set, rest) = read_attributes_ok m v (set_attribute (key_of k) v a) q in
    read_attributes_small m b a' (set_attribute_bound (key_of k) v a b small set) rest

lt_of_ltb : (n : ℕ) → ltb n (2 ^ 32) ≡ true → n < 2 ^ 32
lt_of_ltb n q = ground arith

file_mode_small : (n : ℕ) → ltb n (2 ^ 32) ≡ true → file_mode n ≡ n
unfolding file_mode
file_mode_small n small = mod-eq_of_lt (lt_of_ltb n small)

-- The permissions that are read from a volume context are those of the mode: if the driver's own
-- ones fit in 32 bits, so do those in effect, and the conversion to a mode changes nothing.
pub read_attributes-file_mode :
    (m : Entries) (a a' : Attributes)
    → ltb a.permissions (2 ^ 32) ≡ true
    → read_attributes m a ≡ ok a'
    → file_mode a'.permissions ≡ a'.permissions
read_attributes-file_mode m a a' small q =
    file_mode_small a'.permissions (read_attributes_small m a a' small q)

-- Setting the mode of the target succeeds only if no mode is asked for, or if the target already
-- has it in its permission bits, or if the change to it was accepted.
pub finish_mode_sets :
    (e : Env) (target : String) (permissions : ℕ) (h h' : History)
    → finish_mode e target permissions h ≡ (ok tt, h')
    → (permissions ≡ 0)
      ⊎ (((e.mode h target).error ≡ none)
          × (((e.mode h target).value % 512 ≡ file_mode permissions)
              ⊎ (e.changed_mode (Call.lstat target ∷ h) target (file_mode permissions) ≡ none)))
unfolding finish_mode chmod_if_mismatch ◌>>=◌
finish_mode_sets e target permissions h h' q = ground arith
