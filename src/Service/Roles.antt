-- ===== src/Service/Roles.antt =====
-- The roles that charts/templates/rbac.yaml binds to the service accounts of the controller's and the
-- nodes' pods, and what a call asks of the API server.
use csi_driver_nfs_export.Base.{String, Bool, ◌&&◌, List, [], ◌∷◌, Option, none, some, ◌==◌, any}
use csi_driver_nfs_export.Api.Calls.{Call}

-- rbac.authorization.k8s.io/v1 PolicyRule
pub record Rule : Type 0 where
  pub groups : List String
  pub resources : List String
  pub verbs : List String

-- What the API server is asked for.
pub record Attempt : Type 0 where
  pub group : String
  pub resource : String
  pub verb : String

abbrev reading : List String
reading = "get" ∷ "list" ∷ "watch" ∷ []

abbrev reporting : List String
reporting = "get" ∷ "list" ∷ "watch" ∷ "create" ∷ "update" ∷ "patch" ∷ []

abbrev all_verbs : List String
all_verbs = "get" ∷ "list" ∷ "watch" ∷ "create" ∷ "delete" ∷ "update" ∷ "patch" ∷ []

abbrev rule : String → List String → List String → Rule
rule group resources verbs = record { groups = group ∷ []; resources = resources; verbs = verbs }

-- What both roles end with.
abbrev common_rules : List Rule
common_rules =
    rule "" ("events" ∷ []) reporting
    ∷ rule "storage.k8s.io" ("csinodes" ∷ []) reading
    ∷ rule "" ("nodes" ∷ []) reading
    ∷ rule "coordination.k8s.io" ("leases" ∷ []) reporting
    ∷ rule "" ("secrets" ∷ []) ("get" ∷ [])
    ∷ []

-- csi-nfs-export-controller-role
abbrev pub controller_role : List Rule
controller_role =
    rule "" ("persistentvolumes" ∷ []) all_verbs
    ∷ rule "" ("persistentvolumeclaims" ∷ [])
        ("get" ∷ "list" ∷ "watch" ∷ "create" ∷ "delete" ∷ "update" ∷ [])
    ∷ rule "storage.k8s.io" ("storageclasses" ∷ []) reading
    ∷ rule "storage.k8s.io" ("volumeattachments" ∷ []) all_verbs
    ∷ rule "storage.k8s.io" ("volumeattachments/status" ∷ []) all_verbs
    ∷ common_rules

-- csi-nfs-export-node-role
abbrev pub node_role : List Rule
node_role =
    rule "" ("persistentvolumes" ∷ []) ("get" ∷ "list" ∷ "watch" ∷ "create" ∷ "delete" ∷ [])
    ∷ rule "" ("persistentvolumeclaims" ∷ [])
        ("get" ∷ "list" ∷ "watch" ∷ "create" ∷ "delete" ∷ "update" ∷ [])
    ∷ rule "" ("pods" ∷ "services" ∷ []) all_verbs
    ∷ rule "apps" ("statefulsets" ∷ []) all_verbs
    ∷ rule "storage.k8s.io" ("storageclasses" ∷ []) reading
    ∷ common_rules

abbrev core : String → String → Option Attempt
core resource verb = some (record { group = ""; resource = resource; verb = verb })

-- The calls of client-go; the others stay on the node, or go to the NFS server.
abbrev pub attempt_of : Call → Option Attempt
attempt_of (Call.get_pvc ns name) = core "persistentvolumeclaims" "get"
attempt_of (Call.create_pvc ns def) = core "persistentvolumeclaims" "create"
attempt_of (Call.delete_pvc ns name) = core "persistentvolumeclaims" "delete"
attempt_of Call.list_pvcs = core "persistentvolumeclaims" "list"
attempt_of Call.list_pvs = core "persistentvolumes" "list"
attempt_of Call.list_storage_classes =
    some (record { group = "storage.k8s.io"; resource = "storageclasses"; verb = "list" })
attempt_of (Call.get_statefulset ns name) =
    some (record { group = "apps"; resource = "statefulsets"; verb = "get" })
attempt_of (Call.create_statefulset ns def) =
    some (record { group = "apps"; resource = "statefulsets"; verb = "create" })
attempt_of (Call.delete_statefulset ns name) =
    some (record { group = "apps"; resource = "statefulsets"; verb = "delete" })
attempt_of (Call.get_service ns name) = core "services" "get"
attempt_of (Call.create_service ns def) = core "services" "create"
attempt_of (Call.delete_service ns name) = core "services" "delete"
attempt_of (Call.get_pod ns name) = core "pods" "get"
attempt_of (Call.update_pod ns pod) = core "pods" "update"
attempt_of (Call.list_pods ns) = core "pods" "list"
attempt_of _ = none

abbrev pub names : List String → String → Bool
names listed text = any (λ l. l == text) listed

-- A rule grants what it lists in all three parts.
abbrev pub covers : Rule → Attempt → Bool
covers r a = names r.groups a.group && names r.resources a.resource && names r.verbs a.verb
