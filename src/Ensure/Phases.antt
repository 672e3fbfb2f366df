-- ===== src/Ensure/Phases.antt =====
-- Where a worker can stand.
use csi_driver_nfs_export.Base.{String, ℕ, Bool, true, some, ◌≡◌, ◌⊎◌, sym, ◌∙◌, inl, inr}
use csi_driver_nfs_export.Api.Objects.{Reply}
use csi_driver_nfs_export.Api.Exec.{Code, Reason, ok, err}
use csi_driver_nfs_export.Ensure.{
  Program, halt, get, create, get_or_create, found_or_create, made_or_canceled,
}
use csi_driver_nfs_export.Ensure.Race.{Objects, Request, program_of}

module _ {Obj : Type 0} where
  get_inj :
      {ns ns' name name' : String} {k k' : Reply Obj → Program Obj}
      → get ns name k ≡ get ns' name' k'
      → (ns ≡ ns') × (name ≡ name') × (k ≡ k')
  get_inj q = (cc, cc, cc)

  halted_inj : {o o' : Obj} → halt (ok o) ≡ halt (ok o') → o ≡ o'
  halted_inj q = cc

  create_inj :
      {ns ns' : String} {def def' : Obj} {k k' : Reply Obj → Program Obj}
      → create ns def k ≡ create ns' def' k'
      → (ns ≡ ns') × (def ≡ def') × (k ≡ k')
  create_inj q = (cc, cc, cc)

-- What is stored stays.
abbrev pub Grows : {Obj : Type 0} → Objects Obj → Objects Obj → Type 0
Grows {Obj} a b = (ns name : String) (o : Obj) → a ns name ≡ some o → b ns name ≡ some o

module _ {Obj : Type 0} (name_of : Obj → String) (requests : ℕ → Request Obj) (flaky : Bool) where
  abbrev pub namespace_of : ℕ → String
  namespace_of i = (requests i).namespace

  abbrev pub requested_name : ℕ → String
  requested_name i = name_of (requests i).def

  -- The object that the worker is to make is stored.
  abbrev pub IsStored : Objects Obj → ℕ → Type 0
  IsStored objects i = (o : Obj) × (objects (namespace_of i) (requested_name i) ≡ some o)

  -- A phase, and how many steps of its own the worker needs at most to make its object, if calls fail
  -- only where the name is free for Get, or taken for Create.
  pub data Phase (objects : Objects Obj) (i : ℕ) (p : Program Obj) (n : ℕ) : Type 0 where
    looking : p ≡ program_of name_of requests flaky i → n ≡ 4 → Phase objects i p n
    making :
        p ≡ create (namespace_of i) (requests i).def made_or_canceled → n ≡ 3 → Phase objects i p n
    failed :
        (c : Code) (r : Reason)
        → p ≡ halt (err c r)
        → (flaky ≡ true) ⊎ IsStored objects i
        → n ≡ 2
        → Phase objects i p n
    looking_again :
        p ≡ program_of name_of requests flaky i → IsStored objects i → n ≡ 1 → Phase objects i p n
    ended :
        (o : Obj)
        → p ≡ halt (ok o)
        → objects (namespace_of i) (requested_name i) ≡ some o
        → n ≡ 0
        → Phase objects i p n

  pub Phase-get :
      {objects : Objects Obj} {i n : ℕ} {p : Program Obj} {ns name : String}
      {k : Reply Obj → Program Obj}
      → Phase objects i p n
      → p ≡ get ns name k
      → (ns ≡ namespace_of i)
        × (name ≡ requested_name i)
        × (k ≡ found_or_create (namespace_of i) (requests i).def)
        × ((n ≡ 4) ⊎ ((n ≡ 1) × IsStored objects i))
  unfolding get_or_create
  Phase-get (looking q m) e = let (a, b, c) = get_inj (sym e ∙ q) in (a, b, c, inl m)
  Phase-get (looking_again q at m) e = let (a, b, c) = get_inj (sym e ∙ q) in (a, b, c, inr (m, at))
  Phase-get (making q m) e = cc
  Phase-get (ended o q at m) e = cc
  Phase-get (failed c r q why m) e = cc

  pub Phase-create :
      {objects : Objects Obj} {i n : ℕ} {p : Program Obj} {ns : String} {def : Obj}
      {k : Reply Obj → Program Obj}
      → Phase objects i p n
      → p ≡ create ns def k
      → (ns ≡ namespace_of i) × (def ≡ (requests i).def) × (k ≡ made_or_canceled) × (n ≡ 3)
  unfolding get_or_create
  Phase-create (making q m) e = let (a, b, c) = create_inj (sym e ∙ q) in (a, b, c, m)
  Phase-create (looking q m) e = cc
  Phase-create (looking_again q at m) e = cc
  Phase-create (ended o q at m) e = cc
  Phase-create (failed c r q why m) e = cc

  pub Phase-err :
      {objects : Objects Obj} {i n : ℕ} {p : Program Obj} {c : Code} {r : Reason}
      → Phase objects i p n
      → p ≡ halt (err c r)
      → ((flaky ≡ true) ⊎ IsStored objects i) × (n ≡ 2)
  unfolding get_or_create
  Phase-err (failed c r q why m) e = (why, m)
  Phase-err (looking q m) e = cc
  Phase-err (looking_again q at m) e = cc
  Phase-err (making q m) e = cc
  Phase-err (ended o q at m) e = cc

  pub Phase-ok :
      {objects : Objects Obj} {i n : ℕ} {p : Program Obj} {o : Obj}
      → Phase objects i p n
      → p ≡ halt (ok o)
      → objects (namespace_of i) (requested_name i) ≡ some o
  unfolding get_or_create
  Phase-ok (ended o q at m) e = rw (halted_inj (sym e ∙ q)) at
  Phase-ok (looking q m) e = cc
  Phase-ok (looking_again q at m) e = cc
  Phase-ok (making q m) e = cc
  Phase-ok (failed c r q why m) e = cc

  pub Phase-Grows :
      {a b : Objects Obj} {i n : ℕ} {p : Program Obj} → Grows a b → Phase a i p n → Phase b i p n
  Phase-Grows grows (looking q m) = looking q m
  Phase-Grows grows (making q m) = making q m
  Phase-Grows grows (looking_again q (o, at) m) = looking_again q (o, grows _ _ o at) m
  Phase-Grows grows (ended o q at m) = ended o q (grows _ _ o at) m
  Phase-Grows grows (failed c r q (inl fault) m) = failed c r q (inl fault) m
  Phase-Grows grows (failed c r q (inr (o, at)) m) = failed c r q (inr (o, grows _ _ o at)) m
