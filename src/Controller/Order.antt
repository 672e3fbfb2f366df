-- ===== src/Controller/Order.antt =====
-- The order in which `CreateVolume` visits the parameters.
use csi_driver_nfs_export.Base.{
  String, ℕ, Bool, true, false, ◌∷◌, Option, none, some, ◌≡◌, refl, arith, nat_eq, Option-cases,
  inl, inr, is_some, ltb, ◌&&◌, ◌||◌, string_set,
}
use mathlib.Core.List.{Perm, Pairwise}
use mathlib.Core.Bool.{Bool-set}
use csi_driver_nfs_export.Base.Entries.{Entries}
use csi_driver_nfs_export.Base.Loops.{loop_perm}
use csi_driver_nfs_export.Api.Exec.{Outcome, err, invalid_argument, invalid_parameter}
use csi_driver_nfs_export.Params.{
  Key, data_storage_class, nfs_server_image, nfs_hosts_allow, mount_permissions, pvc_name,
  pvc_namespace, pv_name, key_of,
}
use csi_driver_nfs_export.Controller.Parameters.{Parameters, set_parameter, read_parameters}

-- The meaning of a parameter: a key of a storage class, or zero for all others.
abbrev pub meaning : Key → ℕ
meaning data_storage_class = 1
meaning nfs_server_image = 2
meaning nfs_hosts_allow = 3
meaning mount_permissions = 4
meaning pvc_name = 5
meaning pvc_namespace = 6
meaning pv_name = 7
meaning _ = 0

-- Two entries that differ in meaning.
abbrev pub HaveOther : String × String → String × String → Type 0
HaveOther (k, _) (j, _) = nat_eq (meaning (key_of k)) (meaning (key_of j)) ≡ false

abbrev then_set : Option Parameters → Key → String → Option Parameters
then_set none j w = none
then_set (some p) j w = set_parameter j w p

set_parameter_comm :
    (k j : Key) (v w : String) (p : Parameters)
    → nat_eq (meaning k) (meaning j) ≡ false
    → then_set (set_parameter k v p) j w ≡ then_set (set_parameter j w p) k v
unfolding set_parameter
set_parameter_comm data_storage_class j v w p h = ground arith
set_parameter_comm _ j v w p h = ground arith

set_parameter-has_meaning :
    (k : Key) (v : String) (p : Parameters) → is_some (set_parameter k v p) ≡ ltb 0 (meaning k)
unfolding set_parameter
set_parameter-has_meaning data_storage_class v p = refl
set_parameter-has_meaning _ v p = refl

then_set-has_meaning :
    (k j : Key) (v w : String) (p : Parameters)
    → is_some (then_set (set_parameter k v p) j w) ≡ (ltb 0 (meaning k) && ltb 0 (meaning j))
then_set-has_meaning k j v w p = elim (Option-cases (set_parameter k v p)) [
  | inl refused ↦ ground (arith, set_parameter-has_meaning k v p)
  | inr (p', set) ↦
      ground (arith, set_parameter-has_meaning k v p, set_parameter-has_meaning j w p')
]

-- Two rounds, by what each of them has set.
abbrev two_rounds :
    String → String → Entries → Option Parameters → Option Parameters → Outcome Parameters
two_rounds k j m none _ = err invalid_argument (invalid_parameter k)
two_rounds k j m (some _) none = err invalid_argument (invalid_parameter j)
two_rounds k j m (some _) (some p) = read_parameters m p

read_parameters-two_rounds :
    (k j v w : String) (m : Entries) (p : Parameters)
    → let o = set_parameter (key_of k) v p in
      read_parameters ((k, v) ∷ (j, w) ∷ m) p ≡ two_rounds k j m o (then_set o (key_of j) w)
unfolding read_parameters
read_parameters-two_rounds k j v w m p = elim (Option-cases (set_parameter (key_of k) v p)) [
  | inl refused ↦ rw (refused, read_parameters)
  | inr (p', set) ↦ elim (Option-cases (set_parameter (key_of j) w p')) [
    | inl refused ↦ rw (set, refused, read_parameters)
    | inr (p'', set') ↦ rw (set, set', read_parameters)
  ]
]

-- With both rounds accepted, or one of them refused, the order is not seen.
two_rounds_swap :
    (k j : String) (m : Entries) (a b : Bool) (o o' x : Option Parameters)
    → is_some o ≡ a
    → is_some o' ≡ b
    → is_some x ≡ (a && b)
    → (a || b) ≡ true
    → two_rounds k j m o x ≡ two_rounds j k m o' x
two_rounds_swap k j m a b none none x p q r s = absurd (ground arith)
two_rounds_swap k j m a b none (some _) none p q r s = refl
two_rounds_swap k j m a b none (some _) (some _) p q r s = absurd (ground arith)
two_rounds_swap k j m a b (some _) none none p q r s = refl
two_rounds_swap k j m a b (some _) none (some _) p q r s = absurd (ground arith)
two_rounds_swap k j m a b (some _) (some _) none p q r s = absurd (ground arith)
two_rounds_swap k j m a b (some _) (some _) (some _) p q r s = refl

some_meaning : (m n : ℕ) → nat_eq m n ≡ false → (ltb 0 m || ltb 0 n) ≡ true
some_meaning m n h = ground arith

read_parameters_swap :
    (a b : String × String) (m : Entries) (p : Parameters)
    → HaveOther a b
    → read_parameters (a ∷ b ∷ m) p ≡ read_parameters (b ∷ a ∷ m) p
read_parameters_swap (k, v) (j, w) m p h =
    let comm = set_parameter_comm (key_of k) (key_of j) v w p h in
    rw (read_parameters-two_rounds k j v w m p, read_parameters-two_rounds j k w v m p, ← comm)
      (two_rounds_swap k j m _ _ _ _ _ (set_parameter-has_meaning (key_of k) v p)
        (set_parameter-has_meaning (key_of j) w p)
        (then_set-has_meaning (key_of k) (key_of j) v w p)
        (some_meaning (meaning (key_of k)) (meaning (key_of j)) h))

read_parameters_step :
    (a : String × String) (l l' : Entries)
    → ((p : Parameters) → read_parameters l p ≡ read_parameters l' p)
    → (p : Parameters) → read_parameters (a ∷ l) p ≡ read_parameters (a ∷ l') p
unfolding read_parameters
read_parameters_step (k, v) l l' ih p = elim (Option-cases (set_parameter (key_of k) v p)) [
  | inl refused ↦ rw (refused, read_parameters)
  | inr (p', set) ↦ rw (set, read_parameters) (ih p')
]

-- Go leaves the order open in which a map is visited. No two entries of one meaning given, the
-- parameters are read, or refused with the same message, in the same way in every order.
pub read_parameters-perm :
    {m m' : Entries}
    → Perm m m'
    → Pairwise HaveOther m
    → (p : Parameters) → read_parameters m p ≡ read_parameters m' p
read_parameters-perm perm differ p =
    loop_perm HaveOther read_parameters (λ a b. Bool-set _ _) (λ a b h. ground arith)
      read_parameters_step read_parameters_swap (hlevel string_set) perm differ p
