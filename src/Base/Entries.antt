-- ===== src/Base/Entries.antt =====
-- Go's map[string]string. `range` visits the entries in an order that the language leaves open,
-- so a map is the list of its entries in the order of one visit.
use mathlib.Core.Option.{Option, none, some}
use mathlib.Core.List.{List, [], ◌∷◌}
use Prim.Native.String.{String}
use csi_driver_nfs_export.Base.Core.{if◌then◌else◌, ◌==◌}

abbrev pub Entries : Type 0
Entries = List (String × String)

-- `v, ok := m[k]`
unfoldable pub lookup : String → Entries → Option String
lookup k [] = none
lookup k ((j, v) ∷ m) = if j == k then some v else lookup k m

-- `m[k]`, the empty text where the key is absent.
unfoldable pub index : String → Entries → String
index k [] = ""
index k ((j, v) ∷ m) = if j == k then v else index k m

-- `m[k] = v`
unfoldable pub assign : String → String → Entries → Entries
assign k v [] = (k, v) ∷ []
assign k v ((j, w) ∷ m) = if j == k then (j, v) ∷ m else (j, w) ∷ assign k v m
