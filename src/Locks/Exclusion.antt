-- ===== src/Locks/Exclusion.antt =====
-- Mutual exclusion by the volume locks, for every interleaving of operations.
use csi_driver_nfs_export.Base.{
  differ, String, ℕ, ◌+◌, ◌-◌, true, false, ◌≡◌, refl, ◌==◌, if◌then◌else◌, arith, Bool-cases, inl,
  inr, ltb, leb, eq_iff, sym, ◌∙◌,
}
use csi_driver_nfs_export.Locks.{StringSets, IsLawful, new_volume_locks, try_acquire, release}

-- A run of operations by any number of owners, one step at a time. The function counts the owners
-- that hold each volume: who acquires a lock holds the volume, and only a holder releases it.
pub data Run (S : StringSets) : S.Names → (String → ℕ) → Type 0 where
  started : Run S (new_volume_locks S) (λ v. 0)
  acquired :
      {locks : S.Names} {holders : String → ℕ} (id : String)
      → Run S locks holders
      → (try_acquire S id locks).1 ≡ true
      → Run S (try_acquire S id locks).0 (λ v. if id == v then holders v + 1 else holders v)
  refused :
      {locks : S.Names} {holders : String → ℕ} (id : String)
      → Run S locks holders
      → (try_acquire S id locks).1 ≡ false
      → Run S (try_acquire S id locks).0 holders
  released :
      {locks : S.Names} {holders : String → ℕ} (id : String)
      → Run S locks holders
      → ltb 0 (holders id) ≡ true
      → Run S (release S id locks) (λ v. if id == v then holders v - 1 else holders v)

acquired_lem :
    (S : StringSets) (locks : S.Names) (id : String)
    → (try_acquire S id locks).1 ≡ true
    → (S.has locks id ≡ false) × ((try_acquire S id locks).0 ≡ S.inserted locks id)
unfolding try_acquire
acquired_lem S locks id got = elim (Bool-cases (S.has locks id)) [
  | inl q ↦ absurd (differ (rw q at got))
  | inr q ↦ (q, rw q)
]

refused_lem :
    (S : StringSets) (locks : S.Names) (id : String)
    → (try_acquire S id locks).1 ≡ false
    → (try_acquire S id locks).0 ≡ locks
unfolding try_acquire
refused_lem S locks id got = elim (Bool-cases (S.has locks id)) [
  | inl q ↦ rw q
  | inr q ↦ absurd (differ (sym (rw q at got)))
]

module _ (S : StringSets) (laws : IsLawful S) where
  -- On lawful sets, whatever the owners do, a volume has at most one holder, and it is in the set of locks exactly
  -- while it has one.
  pub Run-excludes :
      {locks : S.Names} {holders : String → ℕ}
      → Run S locks holders
      → (v : String) → (leb (holders v) 1 ≡ true) × (S.has locks v ≡ ltb 0 (holders v))
  unfolding release new_volume_locks
  Run-excludes started v = (refl, laws.has-none_of v)
  Run-excludes (acquired {locks = l} {holders = n} id r got) v =
      let (free, after) = acquired_lem S l id got in
      let (most, has) = Run-excludes r v in
      elim (Bool-cases (id == v)) [
        | inl hit ↦
            let empty : ltb 0 (n v) ≡ false = sym has ∙ (rw ((eq_iff id v).0 hit) at free) in
            (ground arith, rw (after, laws.has-inserted l id v, hit) (ground arith))
        | inr miss ↦ (rw miss most, rw (after, laws.has-inserted l id v, miss) has)
      ]
  Run-excludes (refused {locks = l} id r got) v = rw (refused_lem S l id got) (Run-excludes r v)
  Run-excludes (released {locks = l} {holders = n} id r holds) v =
      let (most, has) = Run-excludes r v in
      elim (Bool-cases (id == v)) [
        | inl hit ↦ (ground arith, rw (laws.has-deleted l id v, hit) (ground arith))
        | inr miss ↦ (rw miss most, rw (laws.has-deleted l id v, miss) has)
      ]
