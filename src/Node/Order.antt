-- ===== src/Node/Order.antt =====
-- The order in which `NodePublishVolume` visits the volume context.
use csi_driver_nfs_export.Base.{
  String, ℕ, true, false, ◌∷◌, Option, none, some, ◌≡◌, refl, arith, nat_eq, Option-cases, inl, inr,
  is_some, ltb, ◌&&◌, ◌||◌, string_set,
}
use mathlib.Core.List.{Perm, Pairwise}
use mathlib.Core.Bool.{Bool-set}
use csi_driver_nfs_export.Base.Entries.{Entries}
use csi_driver_nfs_export.Base.Loops.{loop_perm}
use csi_driver_nfs_export.Api.Exec.{Outcome, err, invalid_argument, invalid_permissions}
use csi_driver_nfs_export.Params.{
  Key, data_volume_claim, data_namespace, nfs_server_image, nfs_hosts_allow, mount_options,
  mount_permissions, pod_name, pod_namespace, key_of,
}
use csi_driver_nfs_export.Node.Attributes.{Attributes, set_attribute, read_attributes}

-- The variable that an entry of the context sets.
abbrev pub target : Key → ℕ
target pod_name = 1
target pod_namespace = 2
target data_volume_claim = 3
target data_namespace = 4
target nfs_server_image = 5
target nfs_hosts_allow = 6
target mount_options = 7
target mount_permissions = 8
target _ = 0

-- Two entries that set different variables, or one that sets none.
abbrev pub AreApart : String × String → String × String → Type 0
AreApart (k, _) (j, _) =
    (nat_eq (target (key_of k)) (target (key_of j)) && ltb 0 (target (key_of k))) ≡ false

abbrev then_set : Option Attributes → Key → String → Option Attributes
then_set none j w = none
then_set (some a) j w = set_attribute j w a

set_attribute_comm :
    (k j : Key) (v w : String) (a : Attributes)
    → (nat_eq (target k) (target j) && ltb 0 (target k)) ≡ false
    → then_set (set_attribute k v a) j w ≡ then_set (set_attribute j w a) k v
unfolding set_attribute
set_attribute_comm pod_name j v w a h = ground arith
set_attribute_comm mount_permissions j v w a h = ground arith
set_attribute_comm _ j v w a h = ground arith

-- Whether an entry can be read does not depend on what was read before.
set_attribute-is_some :
    (k : Key) (v : String) (a b : Attributes)
    → is_some (set_attribute k v a) ≡ is_some (set_attribute k v b)
unfolding set_attribute
set_attribute-is_some pod_name v a b = refl
set_attribute-is_some mount_permissions v a b = ground arith
set_attribute-is_some _ v a b = refl

then_set-is_some :
    (k j : Key) (v w : String) (a : Attributes)
    → is_some (then_set (set_attribute k v a) j w)
      ≡ (is_some (set_attribute k v a) && is_some (set_attribute j w a))
then_set-is_some k j v w a = elim (Option-cases (set_attribute k v a)) [
  | inl bad ↦ rw bad refl
  | inr (b, set) ↦ rw set (set_attribute-is_some j w b a)
]

-- Of two entries that are apart, at most one cannot be read.
set_attribute_apart :
    (k j : Key) (v w : String) (a : Attributes)
    → (nat_eq (target k) (target j) && ltb 0 (target k)) ≡ false
    → (is_some (set_attribute k v a) || is_some (set_attribute j w a)) ≡ true
unfolding set_attribute
set_attribute_apart pod_name j v w a h = refl
set_attribute_apart mount_permissions j v w a h = ground arith
set_attribute_apart _ j v w a h = refl

-- Two rounds, by what each of them has set.
abbrev two_rounds :
    String → String → Entries → Option Attributes → Option Attributes → Outcome Attributes
two_rounds v w m none _ = err invalid_argument (invalid_permissions v)
two_rounds v w m (some _) none = err invalid_argument (invalid_permissions w)
two_rounds v w m (some _) (some a) = read_attributes m a

read_attributes-two_rounds :
    (k j v w : String) (m : Entries) (a : Attributes)
    → let o = set_attribute (key_of k) v a in
      read_attributes ((k, v) ∷ (j, w) ∷ m) a ≡ two_rounds v w m o (then_set o (key_of j) w)
unfolding read_attributes
read_attributes-two_rounds k j v w m a = elim (Option-cases (set_attribute (key_of k) v a)) [
  | inl bad ↦ rw (bad, read_attributes)
  | inr (b, set) ↦ elim (Option-cases (set_attribute (key_of j) w b)) [
    | inl bad ↦ rw (set, bad, read_attributes)
    | inr (c, set') ↦ rw (set, set', read_attributes)
  ]
]

two_rounds_swap :
    (v w : String) (m : Entries) (o o' x : Option Attributes)
    → is_some x ≡ (is_some o && is_some o')
    → (is_some o || is_some o') ≡ true
    → two_rounds v w m o x ≡ two_rounds w v m o' x
two_rounds_swap v w m none none x p q = absurd (ground arith)
two_rounds_swap v w m none (some _) none p q = refl
two_rounds_swap v w m none (some _) (some _) p q = absurd (ground arith)
two_rounds_swap v w m (some _) none none p q = refl
two_rounds_swap v w m (some _) none (some _) p q = absurd (ground arith)
two_rounds_swap v w m (some _) (some _) none p q = absurd (ground arith)
two_rounds_swap v w m (some _) (some _) (some _) p q = refl

read_attributes_swap :
    (x y : String × String) (m : Entries) (a : Attributes)
    → AreApart x y
    → read_attributes (x ∷ y ∷ m) a ≡ read_attributes (y ∷ x ∷ m) a
read_attributes_swap (k, v) (j, w) m a h =
    let comm = set_attribute_comm (key_of k) (key_of j) v w a h in
    rw (read_attributes-two_rounds k j v w m a, read_attributes-two_rounds j k w v m a, ← comm)
      (two_rounds_swap v w m _ _ _ (then_set-is_some (key_of k) (key_of j) v w a)
        (set_attribute_apart (key_of k) (key_of j) v w a h))

read_attributes_step :
    (x : String × String) (l l' : Entries)
    → ((a : Attributes) → read_attributes l a ≡ read_attributes l' a)
    → (a : Attributes) → read_attributes (x ∷ l) a ≡ read_attributes (x ∷ l') a
unfolding read_attributes
read_attributes_step (k, v) l l' ih a = elim (Option-cases (set_attribute (key_of k) v a)) [
  | inl bad ↦ rw (bad, read_attributes)
  | inr (b, set) ↦ rw (set, read_attributes) (ih b)
]

apart_sym : (m n : ℕ) → (nat_eq m n && ltb 0 m) ≡ false → (nat_eq n m && ltb 0 n) ≡ false
apart_sym m n h = ground arith

-- Go leaves the order open in which a map is visited. If no two entries of the volume context set
-- the same variable, the context is read, or refused with the same message, in the same way in
-- every order.
pub read_attributes-perm :
    {m m' : Entries}
    → Perm m m'
    → Pairwise AreApart m
    → (a : Attributes) → read_attributes m a ≡ read_attributes m' a
read_attributes-perm perm apart a =
    loop_perm AreApart read_attributes (λ x y. Bool-set _ _)
      (λ x y h. apart_sym (target (key_of x.0)) (target (key_of y.0)) h) read_attributes_step
      read_attributes_swap (hlevel string_set) perm apart a
