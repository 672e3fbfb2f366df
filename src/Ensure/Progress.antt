-- ===== src/Ensure/Progress.antt =====
-- That every worker makes its object.
use csi_driver_nfs_export.Base.{
  String, ℕ, ◌+◌, true, false, ◌≡◌, ◌⊎◌, refl, inl, inr, nat_eq, leb, arith, Bool-cases,
  Option-cases, differ, if◌then◌else◌,
}
use mathlib.Core.Path.{subst}
use csi_driver_nfs_export.Api.Objects.{Failure}
use csi_driver_nfs_export.Api.Exec.{ok}
use csi_driver_nfs_export.Ensure.{Program, halt, get_or_create}
use csi_driver_nfs_export.Ensure.Race.{
  Objects, Request, Race, program_of, Step, finds, misses, creates, refused, restarts, Reach, begin,
  later,
}
use csi_driver_nfs_export.Ensure.Advances.{Step-Advance}
use csi_driver_nfs_export.Ensure.Phases.{
  namespace_of, requested_name, Phase, looking, looking_again, making, failed, ended, Phase-Grows,
}
use csi_driver_nfs_export.Ensure.Agreement.{nat_eq-eq, Reach-InPhases}

module _ {Obj : Type 0} (name_of : Obj → String) (requests : ℕ → Request Obj) where
  -- How many steps of a run are the worker's own.
  unfoldable pub own_steps : ℕ → {s : Race Obj} → Reach name_of requests false s → ℕ
  own_steps i (begin objects) = 0
  own_steps i (later j r step) =
      let before = own_steps i r in if nat_eq j i then before + 1 else before

  -- The phase of the worker, with steps enough left.
  abbrev HasLeft : (s : Race Obj) → ℕ → ℕ → Type 0
  HasLeft s i steps =
      (n : ℕ) × Phase name_of requests false s.objects i (s.workers i) n
      × (leb (steps + n) 4 ≡ true)

  sum_bound :
      (steps n left : ℕ)
      → leb (steps + n) 4 ≡ true
      → leb (left + 1) n ≡ true
      → leb (steps + 1 + left) 4 ≡ true
  sum_bound steps n left p q = ground (arith, p, q)

  not_flaky : {A : Type 0} → (false ≡ true) ⊎ A → A
  not_flaky (inl q) = absurd (differ q)
  not_flaky (inr a) = a

  Reach-HasLeft :
      {s : Race Obj} (i : ℕ) (r : Reach name_of requests false s) → HasLeft s i (own_steps i r)
  unfolding own_steps
  Reach-HasLeft i (begin objects) = (4, looking refl refl, refl)
  Reach-HasLeft i (later {s} {t} j r step) =
      let (n, phase, enough) = Reach-HasLeft i r in
      let phases = Reach-InPhases name_of requests false r in
      let advance = Step-Advance name_of requests false step (phases j).1 in
      elim (Bool-cases (nat_eq j i)) [
        | inl same ↦
            let own =
              Step-Advance name_of requests false
                (subst (λ (k : ℕ). Step name_of requests false k s t) (nat_eq-eq j i same) step)
                phase in
            (
              own.left,
              own.phase,
              rw same (sum_bound (own_steps i r) n own.left enough (not_flaky own.nearer)),
            )
        | inr other ↦ (
          n,
          rw (advance.others i other) (Phase-Grows name_of requests false advance.grows phase),
          rw other enough,
        )
      ]

  abbrev CanStep : ℕ → Race Obj → Type 0
  CanStep i s = (t : Race Obj) × Step name_of requests false i s t

  some_failure : Failure
  some_failure = record { message = ""; not_exist = false; permission = false }

  looks : (s : Race Obj) (i : ℕ) → s.workers i ≡ program_of name_of requests false i → CanStep i s
  unfolding get_or_create
  looks s i at =
      elim (Option-cases (
        s.objects (namespace_of name_of requests false i)
          (requested_name name_of requests false i))) [
            | inl free ↦ (_, misses _ _ _ (requests i).def some_failure at (inr free) refl)
            | inr (o, there) ↦ (_, finds _ _ _ o at there refl)
          ]

  Phase-goes_on :
      (s : Race Obj) (i n : ℕ)
      → Phase name_of requests false s.objects i (s.workers i) n
      → ((o : Obj) × (s.workers i ≡ halt (ok o))) ⊎ CanStep i s
  Phase-goes_on s i n (looking q m) = inr (looks s i q)
  Phase-goes_on s i n (looking_again q at m) = inr (looks s i q)
  Phase-goes_on s i n (ended o q at m) = inl (o, q)
  Phase-goes_on s i n (failed c r q why m) = inr (_, restarts c r q refl)
  Phase-goes_on s i n (making q m) =
      elim (Option-cases (
        s.objects (namespace_of name_of requests false i)
          (requested_name name_of requests false i))) [
            | inl free ↦ inr (_, creates _ _ _ (requests i).def q free refl)
            | inr (o, there) ↦ inr (_, refused _ _ _ o some_failure q (inr (o, there)) refl)
          ]

  spent : {n : ℕ} → leb (4 + n) 4 ≡ true → n ≡ 0
  spent q = ground (arith, q)

  Phase-spent :
      {objects : Objects Obj} {i n : ℕ} {p : Program Obj}
      → Phase name_of requests false objects i p n
      → n ≡ 0
      → (o : Obj) × (p ≡ halt (ok o))
  Phase-spent (looking q m) z = absurd (ground (arith, m, z))
  Phase-spent (looking_again q at m) z = absurd (ground (arith, m, z))
  Phase-spent (making q m) z = absurd (ground (arith, m, z))
  Phase-spent (failed c r q why m) z = absurd (ground (arith, m, z))
  Phase-spent (ended o q at m) z = (o, q)

-- If calls fail only where there is nothing to get, or the name to create is taken, any number of
-- workers on one server, started again when they fail, do not hold one another up: in every
-- interleaving a worker takes at most four steps of its own, however many the others take; when it has
-- taken four, it has its object; and until it has its object, it can take a step.
pub workers_end :
    {Obj : Type 0} (name_of : Obj → String) (requests : ℕ → Request Obj) (s : Race Obj) (i : ℕ)
    (r : Reach name_of requests false s)
    → (leb (own_steps name_of requests i r) 4 ≡ true)
      × (own_steps name_of requests i r ≡ 4 → (o : Obj) × (s.workers i ≡ halt (ok o)))
      × (((o : Obj) × (s.workers i ≡ halt (ok o)))
          ⊎ ((t : Race Obj) × Step name_of requests false i s t))
workers_end name_of requests s i r =
    let (n, phase, enough) = Reach-HasLeft name_of requests i r in
    (
      ground (arith, enough),
      λ four. Phase-spent name_of requests phase (spent name_of requests (rw four at enough)),
      Phase-goes_on name_of requests s i n phase,
    )
