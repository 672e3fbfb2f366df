-- ===== src/Node/Store.antt =====
-- The StatefulSets of the API server, for a driver that nobody else writes beside, and sequences of the
-- driver's operations.
use csi_driver_nfs_export.Base.{String, ℕ, false, List, [], ◌∷◌, none, some, ◌==◌, ◌≡◌}
use csi_driver_nfs_export.Api.Objects.{StatefulSet}
use csi_driver_nfs_export.Api.Calls.{Call, History}
use csi_driver_nfs_export.Api.Client.{Env}
use csi_driver_nfs_export.Controller.Volume.{CreateRequest, create_volume, delete_volume}
use csi_driver_nfs_export.Node.Publish.{PublishRequest, publish_volume}
use csi_driver_nfs_export.Node.Unpublish.{unpublish_volume}
use csi_driver_nfs_export.Node.Stats.{volume_stats}
use csi_driver_nfs_export.Node.Exports.{Exports, KeepsExport}

-- The call creates no StatefulSet.
abbrev pub CreatesNothing : Call → Type 0
CreatesNothing (Call.create_statefulset ns def) = ⊥
CreatesNothing _ = Unit

-- What the API documents of StatefulSets, when nobody else writes them: Get finds what is stored;
-- a creation that is accepted is stored; what is stored stays until it is deleted by name, and is
-- gone, until it is created again, when its deletion is accepted.
pub record IsExportStore (e : Env) (exports : History → Exports) : Type 0 where
  pub found :
      (h : History) (ns name : String)
      → (e.statefulset h ns name).error ≡ none
      → (def : StatefulSet) × (exports h ns name ≡ some def)
  pub created :
      (h : History) (ns : String) (def : StatefulSet)
      → (e.created_statefulset h ns def).error ≡ none
      → (stored : StatefulSet) × (exports (Call.create_statefulset ns def ∷ h) ns def.name
          ≡ some stored)
  pub kept :
      (h : History) (c : Call) (ns name : String) (def : StatefulSet)
      → KeepsExport name c
      → exports h ns name ≡ some def
      → exports (c ∷ h) ns name ≡ some def
  pub deleted :
      (h : History) (ns name : String)
      → e.deleted_statefulset h ns name ≡ none
      → exports (Call.delete_statefulset ns name ∷ h) ns name ≡ none
  pub absent :
      (h : History) (c : Call) (ns name : String)
      → CreatesNothing c
      → exports h ns name ≡ none
      → exports (c ∷ h) ns name ≡ none

-- The remote procedure calls that change anything, and one that does not.
pub data Operation : Type 0 where
  create : CreateRequest → Operation
  delete : String → Operation
  publish : ℕ → PublishRequest → Operation
  unpublish : String → String → Operation
  stats : String → String → Operation

unfoldable pub perform : Env → Operation → History → History
perform e (create req) h = (create_volume e req h).1
perform e (delete id) h = (delete_volume e id h).1
perform e (publish permissions req) h = (publish_volume e permissions req h).1
perform e (unpublish id target) h = (unpublish_volume e id target h).1
perform e (stats id path) h = (volume_stats e id path h).1

unfoldable pub perform_all : Env → List Operation → History → History
perform_all e [] h = h
perform_all e (op ∷ ops) h = perform_all e ops (perform e op h)

-- The operation is no `NodeUnpublishVolume` of the volume.
abbrev pub SparesVolume : String → Operation → Type 0
SparesVolume name (unpublish id target) = (id == name) ≡ false
SparesVolume name _ = Unit
