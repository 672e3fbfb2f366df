-- ===== src/Maps/Setting.antt =====
-- `setKeyValueInMap`: which entry it sets, and what it keeps.
use csi_driver_nfs_export.Base.{
  differ, String, ℕ, true, false, [], ◌∷◌, ◌++◌, none, some, ◌==◌, ◌≡◌, ◌⊎◌, Bool-cases, inl, inr,
  eq_iff, ap, sym, ◌∙◌, refl, arith,
}
use csi_driver_nfs_export.Base.Entries.{Entries, assign}
use csi_driver_nfs_export.Maps.{equal_fold, overwrite, set_key_value}

equal_fold_refl : (fold : ℕ → ℕ) (s : String) → equal_fold fold s s ≡ true
unfolding equal_fold
equal_fold_refl fold String.[] = refl
equal_fold_refl fold (String.◌∷◌ c s) = ground (arith, equal_fold_refl fold s)

module _ (fold : ℕ → ℕ) (key value : String) where
  -- No key of the map is `key` up to the case of its letters.
  unfoldable pub IsUnset : Entries → Type 0
  IsUnset [] = Unit
  IsUnset ((k, v) ∷ m) = (equal_fold fold k key ≡ false) × IsUnset m

  -- The first key of `m` that is `key` up to case has its value replaced in `m'`.
  abbrev pub IsReplaced : Entries → Entries → Type 0
  IsReplaced m m' =
      (before : Entries) × (k : String) × (v : String) × (after : Entries) × IsUnset before
      × (equal_fold fold k key ≡ true)
      × (m ≡ before ++ (k, v) ∷ after)
      × (m' ≡ before ++ (k, value) ∷ after)

  overwrite_finds :
      (m : Entries)
      → ((overwrite fold key value m ≡ none) × IsUnset m)
        ⊎ ((m' : Entries) × (overwrite fold key value m ≡ some m') × IsReplaced m m')
  unfolding overwrite IsUnset
  overwrite_finds [] = inl (refl, tt)
  overwrite_finds ((k, v) ∷ m) = elim (Bool-cases (equal_fold fold k key)) [
    | inl hit ↦ inr ((k, value) ∷ m, rw hit, ([], k, v, m, tt, hit, refl, refl))
    | inr miss ↦ elim (overwrite_finds m) [
      | inl (uncut, unset) ↦ inl (rw (miss, uncut), (miss, unset))
      | inr (m', set, (before, k', v', after, unset, folds, was, now)) ↦ inr (
        (k, v) ∷ m',
        rw (miss, set),
        (
          (k, v) ∷ before,
          k',
          v',
          after,
          (miss, unset),
          folds,
          ap (λ r. (k, v) ∷ r) was,
          ap (λ r. (k, v) ∷ r) now,
        ),
      )
    ]
  ]

  assign_appends : (m : Entries) → IsUnset m → assign key value m ≡ m ++ (key, value) ∷ []
  unfolding assign IsUnset
  assign_appends [] unset = refl
  assign_appends ((k, v) ∷ m) (miss, unset) = elim (Bool-cases (k == key)) [
    | inl same ↦
        let folds : equal_fold fold k key ≡ true =
          rw ((eq_iff k key).0 same) (equal_fold_refl fold key) in
        absurd (differ (sym miss ∙ folds))
    | inr other ↦ rw other (ap (λ r. (k, v) ∷ r) (assign_appends m unset))
  ]

  -- Setting a value in a map that is there gives a map. Where the map has keys that are `key` up to
  -- the case of their letters, the first of them that is visited keeps its spelling and gets the
  -- value. Where it has none, `key` is added with the value. All other entries stay as they are.
  pub set_key_value_exactly :
      (m : Entries)
      → (m' : Entries) × (set_key_value fold (some m) key value ≡ some m')
        × (IsReplaced m m' ⊎ (IsUnset m × (m' ≡ m ++ (key, value) ∷ [])))
  unfolding set_key_value
  set_key_value_exactly m = elim (overwrite_finds m) [
    | inl (uncut, unset) ↦
        (assign key value m, rw (uncut, set_key_value), inr (unset, assign_appends m unset))
    | inr (m', set, replaced) ↦ (m', rw (set, set_key_value), inl replaced)
  ]
