-- ===== src/Node/Composed.antt =====
-- The two services together: what CreateVolume leaves is what NodePublishVolume looks for.
use csi_driver_nfs_export.Base.{
  ℕ, false, List, none, some, ◌++◌, All, ◌==◌, ◌≡◌, refl, sym, ◌∙◌, ap,
}
use csi_driver_nfs_export.Api.Objects.{Pvc}
use csi_driver_nfs_export.Api.Calls.{History}
use csi_driver_nfs_export.Api.Exec.{ok, ◌>>=◌}
use csi_driver_nfs_export.Api.Client.{Env}
use csi_driver_nfs_export.Controller.Parameters.{Parameters, no_parameters, read_parameters}
use csi_driver_nfs_export.Controller.Created.{volume_of}
use csi_driver_nfs_export.Controller.Volume.{
  Capability, CreateRequest, Volume, create_volume, volume_id_of,
}
use csi_driver_nfs_export.Controller.Store.{Claims, IsClaimStore}
use csi_driver_nfs_export.Controller.Lasting.{create_all, claim_lasts}
use csi_driver_nfs_export.Node.Attributes.{Attributes, start_attributes, read_attributes}
use csi_driver_nfs_export.Node.Context.{IsPodInfo, for_pod, pod_info_read, context_read}
use csi_driver_nfs_export.Node.Order.{AreApart, read_attributes-perm}
use mathlib.Core.List.{Perm, Pairwise}
use csi_driver_nfs_export.Base.Entries.{Entries}
use csi_driver_nfs_export.Node.Publish.{PublishRequest, require_capability, check_publish}

ok_inj : {p q : Parameters} → ok p ≡ ok q → p ≡ q
ok_inj h = cc

-- The context of the request holds the volume's context and entries on the pod, in any order, no two
-- of which set the same variable.
abbrev pub IsContextOf : Volume → PublishRequest → Type 0
IsContextOf vol wanted =
    (pod_info : Entries) × All IsPodInfo pod_info
    × Perm wanted.context (pod_info ++ vol.volume_context)
    × Pairwise AreApart wanted.context

-- The context is read with the claim and the namespace of the volume.
reads_created :
    (req : CreateRequest) (p : Parameters) (wanted : PublishRequest) (a : Attributes)
    → IsContextOf (volume_of req p) wanted
    → (b : Attributes) × (read_attributes wanted.context a ≡ ok b)
      × (b.claim ≡ volume_id_of req.name)
      × (b.namespace ≡ p.claim_namespace)
reads_created req p wanted a (info, all, perm, apart) =
    let (name, ns, read) = pod_info_read info (volume_of req p).volume_context a all in
    (
      _,
      read_attributes-perm perm apart a ∙ read ∙ context_read _ _ _ _ (for_pod name ns a),
      refl,
      refl,
    )

passes :
    (e : Env) (permissions : ℕ) (wanted : PublishRequest) (cap : Capability) (a : Attributes)
    (h : History)
    → wanted.capability ≡ some cap
    → (wanted.volume_id == "") ≡ false
    → (wanted.target_path == "") ≡ false
    → read_attributes wanted.context (start_attributes cap.mount_flags wanted.readonly permissions)
      ≡ ok a
    → (a.claim == "") ≡ false
    → (a.namespace == "") ≡ false
    → check_publish e permissions wanted h ≡ (ok a, h)
unfolding check_publish require_capability ◌>>=◌
passes e permissions wanted cap a h has id target read claim ns =
    rw (has, id, target, read, claim, ns)

checks_created :
    (e : Env) (permissions : ℕ) (wanted : PublishRequest) (cap : Capability) (req : CreateRequest)
    (p : Parameters) (h : History)
    → wanted.volume_id ≡ (volume_of req p).volume_id
    → IsContextOf (volume_of req p) wanted
    → wanted.capability ≡ some cap
    → ((volume_of req p).volume_id == "") ≡ false
    → (p.claim_namespace == "") ≡ false
    → (wanted.target_path == "") ≡ false
    → (a : Attributes) × (check_publish e permissions wanted h ≡ (ok a, h))
      × (a.claim ≡ volume_id_of req.name)
      × (a.namespace ≡ p.claim_namespace)
checks_created e permissions wanted cap req p h id context has named spaced target =
    let (a, read, claim, ns) =
      reads_created req p wanted (start_attributes cap.mount_flags wanted.readonly permissions)
        context in
    (
      a,
      passes e permissions wanted cap a h has (ap (λ c. c == "") id ∙ named) target read
          (ap (λ c. c == "") claim ∙ named) (ap (λ c. c == "") ns ∙ spaced),
      claim,
      ns,
    )

module _ (e : Env) (claims : History → Claims) (store : IsClaimStore e claims) where
  -- A volume was created on a claim store that nobody else writes, in a namespace that is not empty,
  -- and further ones were created. A request to publish it, with its identifier, its context and a
  -- target path, passes all checks, and the data claim that it then looks up is there, under the
  -- volume's identifier.
  pub created_then_published :
      (req : CreateRequest) (p : Parameters) (reqs : List CreateRequest) (h h' : History)
      (vol : Volume) (permissions : ℕ) (wanted : PublishRequest) (cap : Capability)
      → read_parameters req.parameters no_parameters ≡ ok p
      → (p.claim_namespace == "") ≡ false
      → create_volume e req h ≡ (ok vol, h')
      → wanted.volume_id ≡ vol.volume_id
      → IsContextOf vol wanted
      → wanted.capability ≡ some cap
      → (vol.volume_id == "") ≡ false
      → (wanted.target_path == "") ≡ false
      → (claim : Pvc) × (a : Attributes) × (check_publish e permissions wanted
            (create_all e reqs h').1
          ≡ (ok a, (create_all e reqs h').1))
        × (a.claim ≡ vol.volume_id)
        × (a.namespace ≡ p.claim_namespace)
        × (e.pvc (create_all e reqs h').1 p.claim_namespace vol.volume_id
            ≡ record { value = claim; error = none })
  created_then_published req p reqs h h' vol permissions wanted cap read spaced made id context has
        named target =
      let (p', claim, read', same', there') = claim_lasts e claims store req reqs h h' made in
      let g = (create_all e reqs h').1 in
      let same_p : p' ≡ p = ok_inj (sym read' ∙ read) in
      let same : vol ≡ volume_of req p = same' ∙ ap (volume_of req) same_p in
      let there : claims g p.claim_namespace (volume_id_of req.name) ≡ some claim =
        rw same_p at there' in
      let (a, checked, is_claim, is_ns) =
        checks_created e permissions wanted cap req p g (id ∙ ap (λ (v : Volume). v.volume_id) same)
          (rw same at context) has (rw same at named) spaced target in
      (
        claim,
        a,
        checked,
        is_claim ∙ ap (λ (v : Volume). v.volume_id) (sym same),
        is_ns,
        rw same (store.found g p.claim_namespace (volume_id_of req.name) claim there),
      )
