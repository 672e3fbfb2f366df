-- ===== src/Node/Namespace.antt =====
-- The namespace of the export, as the volume context and the volume's attributes give it.
use csi_driver_nfs_export.Base.{
  nothing, String, ℕ, Bool, if◌then◌else◌, true, false, [], ◌∷◌, Option, none, some, ◌==◌, ◌≡◌, ◌≢◌,
  ◌++◌, refl, sym, ◌∙◌, ap, inl, inr, All, Option-cases, some_inj, Bool-cases,
}
use csi_driver_nfs_export.Base.Entries.{Entries}
use csi_driver_nfs_export.Base.Strings.{parse_octal}
use csi_driver_nfs_export.Api.Exec.{Code, Reason, ok, err}
use csi_driver_nfs_export.Params.{Key, data_namespace, mount_options, mount_permissions, key_of}
use csi_driver_nfs_export.Node.Attributes.{
  Attributes, set_attribute, read_attributes, Backend, set_backend, read_backend,
}
use csi_driver_nfs_export.Node.Order.{AreApart, read_attributes-perm}
use mathlib.Core.List.{Perm, Pairwise}

pub ok_inj : {x y : Attributes} → ok x ≡ ok y → x ≡ y
ok_inj q = cc

refused : {c : Code} {r : Reason} {a : Attributes} → err c r ≡ ok a → ⊥
refused q = cc

permissions_agree :
    (empty : Bool) (o : Option ℕ) (a a' : Attributes) (b : Backend)
    → b.namespace ≡ a.namespace
    → (if empty
        then some a
        else elim o [ none ↦ none | some n ↦ some (record a { permissions = n }) ])
      ≡ some a'
    → b.namespace ≡ a'.namespace
permissions_agree true o a a' b agree q = agree ∙ ap (λ (x : Attributes). x.namespace) (some_inj q)
permissions_agree false none a a' b agree q = nothing q
permissions_agree false (some n) a a' b agree q =
    agree ∙ ap (λ (x : Attributes). x.namespace) (some_inj q)

set_backend_agrees :
    (key : Key) (v : String) (a a' : Attributes) (b : Backend)
    → b.namespace ≡ a.namespace
    → set_attribute key v a ≡ some a'
    → (set_backend key v b).namespace ≡ a'.namespace
unfolding set_backend set_attribute
set_backend_agrees mount_options v a a' b agree q = elim (Bool-cases (v == "")) [
  | inl empty ↦ agree ∙ ap (λ (x : Attributes). x.namespace) (some_inj (rw empty at q))
  | inr full ↦ agree ∙ ap (λ (x : Attributes). x.namespace) (some_inj (rw full at q))
]
set_backend_agrees mount_permissions v a a' b agree q =
    permissions_agree (v == "") (parse_octal v) a a' b agree q
set_backend_agrees data_namespace v a a' b agree q =
    ap (λ (x : Attributes). x.namespace) (some_inj q)
set_backend_agrees _ v a a' b agree q = agree ∙ ap (λ (x : Attributes). x.namespace) (some_inj q)

-- Both loops read the same namespace.
read_backend_agrees :
    (m : Entries) (a a' : Attributes) (b : Backend)
    → b.namespace ≡ a.namespace
    → read_attributes m a ≡ ok a'
    → (read_backend m b).namespace ≡ a'.namespace
unfolding read_backend read_attributes
read_backend_agrees [] a a' b agree q = agree ∙ ap (λ (x : Attributes). x.namespace) (ok_inj q)
read_backend_agrees ((k, v) ∷ m) a a' b agree q =
    elim (Option-cases (set_attribute (key_of k) v a)) [
      | inl bad ↦ absurd (refused (rw (bad, read_attributes) at q))
      | inr (a1, set) ↦
          read_backend_agrees m a1 a' (set_backend (key_of k) v b)
            (set_backend_agrees (key_of k) v a a1 b agree set) (rw (set, read_attributes) at q)
    ]

-- The entry does not name the namespace of the data claim.
abbrev pub IsNoNamespace : String × String → Type 0
IsNoNamespace (k, v) = key_of k ≢ data_namespace

permissions_keep :
    (empty : Bool) (o : Option ℕ) (a a' : Attributes)
    → (if empty
        then some a
        else elim o [ none ↦ none | some n ↦ some (record a { permissions = n }) ])
      ≡ some a'
    → a.namespace ≡ a'.namespace
permissions_keep empty o a a' q =
    permissions_agree empty o a a' (record { claim = ""; namespace = a.namespace }) refl q

set_attribute_keeps :
    (key : Key) (v : String) (a a' : Attributes)
    → key ≢ data_namespace
    → set_attribute key v a ≡ some a'
    → a.namespace ≡ a'.namespace
unfolding set_attribute
set_attribute_keeps mount_options v a a' other q = elim (Bool-cases (v == "")) [
  | inl empty ↦ ap (λ (x : Attributes). x.namespace) (some_inj (rw empty at q))
  | inr full ↦ ap (λ (x : Attributes). x.namespace) (some_inj (rw full at q))
]
set_attribute_keeps mount_permissions v a a' other q =
    permissions_keep (v == "") (parse_octal v) a a' q
set_attribute_keeps data_namespace v a a' other q = absurd (other refl)
set_attribute_keeps _ v a a' other q = ap (λ (x : Attributes). x.namespace) (some_inj q)

-- Entries in front that do not name the namespace leave it as it is.
skip_others :
    (others m : Entries) (a a' : Attributes)
    → All IsNoNamespace others
    → read_attributes (others ++ m) a ≡ ok a'
    → (b : Attributes) × (a.namespace ≡ b.namespace) × (read_attributes m b ≡ ok a')
unfolding read_attributes
skip_others [] m a a' other q = (a, refl, q)
skip_others ((k, v) ∷ others) m a a' (first, rest) q =
    elim (Option-cases (set_attribute (key_of k) v a)) [
      | inl bad ↦ absurd (refused (rw (bad, read_attributes) at q))
      | inr (a1, set) ↦
          let (b, kept, read) = skip_others others m a1 a' rest (rw (set, read_attributes) at q) in
          (b, set_attribute_keeps (key_of k) v a a1 first set ∙ kept, read)
    ]

-- A context that holds the attributes and further entries, in any order, is read with the namespace
-- with which the attributes are read.
pub context_namespace :
    (others attributes context : Entries) (a a' : Attributes)
    → All IsNoNamespace others
    → Perm context (others ++ attributes)
    → Pairwise AreApart context
    → a.namespace ≡ ""
    → read_attributes context a ≡ ok a'
    → (read_backend attributes (record { claim = ""; namespace = "" })).namespace ≡ a'.namespace
context_namespace others attributes context a a' other perm apart empty read =
    let (b, kept, rest) =
      skip_others others attributes a a' other (sym (read_attributes-perm perm apart a) ∙ read) in
    read_backend_agrees attributes b a' _ (sym empty ∙ kept) rest
