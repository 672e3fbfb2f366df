-- ===== src/Ensure/Agreement.antt =====
-- What holds of the objects that workers end with.
use csi_driver_nfs_export.Base.{
  String, ℕ, Bool, true, some, ◌≡◌, refl, sym, ◌∙◌, inl, inr, nat_eq, arith, Bool-cases, some_inj,
}
use mathlib.Core.Path.{subst}
use csi_driver_nfs_export.Api.Exec.{ok}
use csi_driver_nfs_export.Ensure.{halt}
use csi_driver_nfs_export.Ensure.Race.{Request, Race, Step, Reach, begin, later}
use csi_driver_nfs_export.Ensure.Advances.{Step-Advance}
use csi_driver_nfs_export.Ensure.Phases.{Grows, Phase, looking, Phase-ok, Phase-Grows}

pub nat_eq-eq : (i j : ℕ) → nat_eq i j ≡ true → i ≡ j
nat_eq-eq i j q = ground arith

module _ {Obj : Type 0} (name_of : Obj → String) (requests : ℕ → Request Obj) (flaky : Bool) where
  -- Every worker is in some phase.
  abbrev pub InPhases : Race Obj → Type 0
  InPhases s = (i : ℕ) → (n : ℕ) × Phase name_of requests flaky s.objects i (s.workers i) n

  pub Step-InPhases :
      {i : ℕ} {s t : Race Obj} → Step name_of requests flaky i s t → InPhases s → InPhases t
  Step-InPhases {i} {s} {t} step phases j =
      let advance = Step-Advance name_of requests flaky step (phases i).1 in
      elim (Bool-cases (nat_eq i j)) [
        | inl same ↦
            subst (λ (k : ℕ). (n : ℕ) × Phase name_of requests flaky t.objects k (t.workers k) n)
              (nat_eq-eq i j same) (advance.left, advance.phase)
        | inr other ↦
            let (n, phase) = phases j in
            (
              n,
              rw (advance.others j other) (Phase-Grows name_of requests flaky advance.grows phase),
            )
      ]

  pub Reach-InPhases : {s : Race Obj} → Reach name_of requests flaky s → InPhases s
  Reach-InPhases (begin objects) = λ i. (4, looking refl refl)
  Reach-InPhases (later i r step) = Step-InPhases step (Reach-InPhases r)

-- Any number of workers run the program on one API server, each for a request of its own, and are
-- started again when they fail, in any interleaving, also when calls of the server fail for no
-- reason: a worker that has ended has the object that is stored under its name, so that two which
-- were to make the same name have the same object, and no further step of any worker
-- replaces or removes what is stored.
pub workers_agree :
    {Obj : Type 0} (name_of : Obj → String) (requests : ℕ → Request Obj) (flaky : Bool)
    (s : Race Obj) (i j : ℕ) (a b : Obj)
    → Reach name_of requests flaky s
    → s.workers i ≡ halt (ok a)
    → s.workers j ≡ halt (ok b)
    → (requests i).namespace ≡ (requests j).namespace
    → name_of (requests i).def ≡ name_of (requests j).def
    → (a ≡ b)
      × (s.objects (requests i).namespace (name_of (requests i).def) ≡ some a)
      × ((k : ℕ) (t : Race Obj) → Step name_of requests flaky k s t → Grows s.objects t.objects)
workers_agree name_of requests flaky s i j a b r done_i done_j same_ns same_name =
    let phases = Reach-InPhases name_of requests flaky r in
    let at_i = Phase-ok name_of requests flaky (phases i).1 done_i in
    let at_j = Phase-ok name_of requests flaky (phases j).1 done_j in
    (
      some_inj (sym at_i ∙ (rw (same_ns, same_name) at_j)),
      at_i,
      λ k t step. (Step-Advance name_of requests flaky step (phases k).1).grows,
    )
