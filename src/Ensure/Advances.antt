-- ===== src/Ensure/Advances.antt =====
-- What a step changes, and how much nearer it brings its worker to its end.
use csi_driver_nfs_export.Base.{
  String, ℕ, Bool, true, false, none, some, ◌==◌, ◌≡◌, ◌⊎◌, refl, sym, ◌∙◌, ap, inl, inr, nat_eq,
  arith, Bool-cases, leb, ◌+◌, nothing, eq_iff, eq_refl,
}
use csi_driver_nfs_export.Api.Exec.{ok, canceled, caused_by}
use csi_driver_nfs_export.Ensure.{Program, halt, found_or_create, made_or_canceled}
use csi_driver_nfs_export.Ensure.Race.{
  Objects, put_object, Request, Race, set_worker, reply_of, program_of, Step, finds, misses,
  creates, refused, restarts,
}
use csi_driver_nfs_export.Ensure.Phases.{
  Grows, namespace_of, requested_name, IsStored, Phase, looking, making, failed, looking_again,
  ended, Phase-get, Phase-create, Phase-err,
}

nat_eq_refl : (n : ℕ) → nat_eq n n ≡ true
nat_eq_refl n = ground arith

module _ {Obj : Type 0} (name_of : Obj → String) (requests : ℕ → Request Obj) (flaky : Bool) where
  put_object-Grows :
      (ns name : String) (o : Obj) (objects : Objects Obj)
      → objects ns name ≡ none
      → Grows objects (put_object ns name o objects)
  put_object-Grows ns name o objects free n m old at = elim (Bool-cases (ns == n)) [
    | inr q ↦ rw q at
    | inl q ↦ elim (Bool-cases (name == m)) [
      | inr r ↦ rw (q, r) at
      | inl r ↦ nothing (sym free ∙ (rw (← (eq_iff ns n).0 q, ← (eq_iff name m).0 r) at at))
    ]
  ]

  put_object_lem :
      (ns name : String) (o : Obj) (objects : Objects Obj)
      → put_object ns name o objects ns name ≡ some o
  put_object_lem ns name o objects = rw (eq_refl ns, eq_refl name) refl

  -- What a step does: what is stored stays, and its worker comes nearer to its end, unless the server
  -- is flaky.
  pub record Advance (i n : ℕ) (s t : Race Obj) : Type 0 where
    pub grows : Grows s.objects t.objects
    pub left : ℕ
    pub phase : Phase name_of requests flaky t.objects i (t.workers i) left
    pub nearer : (flaky ≡ true) ⊎ (leb (left + 1) n ≡ true)
    pub others : (j : ℕ) → nat_eq i j ≡ false → t.workers j ≡ s.workers j

  after_creation :
      (ns name : String) (o : Obj) (s : Race Obj) (i n : ℕ) (p : Program Obj)
      → n ≡ 3
      → (ns ≡ namespace_of name_of requests flaky i)
      → (name ≡ requested_name name_of requests flaky i)
      → p ≡ halt (ok o)
      → s.objects ns name ≡ none
      → Advance i n s (record s {
        objects = put_object ns name o s.objects;
        workers = set_worker i p s.workers;
      })
  after_creation ns name o s i n p three in_ns of_name done free = record {
    grows = put_object-Grows ns name o s.objects free;
    left = 0;
    phase =
        ended o (rw (nat_eq_refl i) done)
          (rw (← in_ns, ← of_name) (put_object_lem ns name o s.objects)) refl;
    nearer = inr (rw three refl);
    others = λ j q. rw q refl;
  }

  moved :
      (s : Race Obj) (i n m : ℕ) (p : Program Obj)
      → Phase name_of requests flaky s.objects i p m
      → (flaky ≡ true) ⊎ (leb (m + 1) n ≡ true)
      → Advance i n s (record s { workers = set_worker i p s.workers })
  moved s i n m p phase nearer = record {
    grows = λ ns name o at. at;
    left = m;
    phase = rw (nat_eq_refl i) phase;
    nearer = nearer;
    others = λ j q. rw q refl;
  }

  not_yet :
      (objects : Objects Obj) (i : ℕ) {n : ℕ}
      → (n ≡ 4) ⊎ ((n ≡ 1) × IsStored name_of requests flaky objects i)
      → objects (namespace_of name_of requests flaky i) (requested_name name_of requests flaky i)
        ≡ none
      → n ≡ 4
  not_yet objects i (inl four) free = four
  not_yet objects i (inr (one, (o, at))) free = nothing (sym free ∙ at)

  one_left : {n : ℕ} {A : Type 0} → (n ≡ 4) ⊎ ((n ≡ 1) × A) → leb 1 n ≡ true
  one_left (inl four) = rw four refl
  one_left (inr (one, _)) = rw one refl

  pub Step-Advance :
      {i n : ℕ} {s t : Race Obj}
      → Step name_of requests flaky i s t
      → Phase name_of requests flaky s.objects i (s.workers i) n
      → Advance i n s t
  unfolding found_or_create made_or_canceled
  Step-Advance {i} {n} {s} (finds ns name k o at found next) phase =
      let (in_ns, of_name, is_k, stage) = Phase-get name_of requests flaky phase at in
      rw next (
        moved s i n 0 (k (reply_of o)) (ended o (rw is_k refl) (rw (in_ns, of_name) at found) refl)
          (inr (one_left stage)))
  Step-Advance {i} {n} {s} (misses ns name k o f at (inl fault) next) phase =
      let (in_ns, of_name, is_k, stage) = Phase-get name_of requests flaky phase at in
      rw next (
        moved s i n 3 (k (record { value = o; error = some f })) (making (rw is_k refl) refl)
          (inl fault))
  Step-Advance {i} {n} {s} (misses ns name k o f at (inr free) next) phase =
      let (in_ns, of_name, is_k, stage) = Phase-get name_of requests flaky phase at in
      let four = not_yet s.objects i stage (rw (in_ns, of_name) at free) in
      rw next (
        moved s i n 3 (k (record { value = o; error = some f })) (making (rw is_k refl) refl)
          (inr (rw four refl)))
  Step-Advance {i} {n} {s} (creates ns def k o at free next) phase =
      let (in_ns, is_def, is_k, three) = Phase-create name_of requests flaky phase at in
      rw next (
        after_creation ns (name_of def) o s i n (k (reply_of o)) three in_ns (ap name_of is_def)
          (rw is_k refl) free)
  Step-Advance {i} {n} {s} (refused ns def k o f at (inl fault) next) phase =
      let (in_ns, is_def, is_k, three) = Phase-create name_of requests flaky phase at in
      rw next (
        moved s i n 2 (k (record { value = o; error = some f }))
          (failed canceled (caused_by f) (rw is_k refl) (inl fault) refl) (inl fault))
  Step-Advance {i} {n} {s} (refused ns def k o f at (inr (present, there)) next) phase =
      let (in_ns, is_def, is_k, three) = Phase-create name_of requests flaky phase at in
      rw next (
        moved s i n 2 (k (record { value = o; error = some f }))
          (failed canceled (caused_by f) (rw is_k refl) (inr (present, rw (in_ns, is_def) at there))
            refl)
          (inr (rw three refl)))
  Step-Advance {i} {n} {s} (restarts c r at next) phase =
      let (why, two) = Phase-err name_of requests flaky phase at in
      elim why [
        | inl fault ↦
            rw next
              (moved s i n 4 (program_of name_of requests flaky i) (looking refl refl) (inl fault))
        | inr there ↦ rw next (
            moved s i n 1 (program_of name_of requests flaky i) (looking_again refl there refl)
              (inr (rw two refl)))
      ]
