-- ===== src/Controller/Unordered.antt =====
-- `CreateVolume` on Go's maps, which have no order.
use csi_driver_nfs_export.Base.{string_set, ◌≡◌, refl}
use csi_driver_nfs_export.Base.Entries.{Entries}
use csi_driver_nfs_export.Base.GoMaps.{GoMap, IsAnswerOf, has_answer}
use csi_driver_nfs_export.Api.Calls.{History}
use csi_driver_nfs_export.Api.Exec.{Outcome, ◌>>=◌}
use csi_driver_nfs_export.Api.Client.{Env}
use csi_driver_nfs_export.Controller.Parameters.{no_parameters}
use csi_driver_nfs_export.Controller.Volume.{CreateRequest, Volume, create_volume}
use csi_driver_nfs_export.Controller.Order.{HaveOther, read_parameters-perm}
use mathlib.Core.List.{Perm, Pairwise}

answer_set : IsSet (Outcome Volume × History)
answer_set = hlevel string_set

create_volume-perm :
    (e : Env) (req : CreateRequest) (h : History) (m m' : Entries)
    → Perm m m'
    → Pairwise HaveOther m
    → create_volume e (record req { parameters = m }) h
      ≡ create_volume e (record req { parameters = m' }) h
unfolding create_volume ◌>>=◌
create_volume-perm e req h m m' same differ =
    rw (read_parameters-perm same differ no_parameters) refl

-- Go leaves the order open in which a map is visited. Of a map of parameters, no two of one meaning,
-- `CreateVolume` has exactly one outcome with its calls, which all orders of visiting give.
pub create_volume_unordered :
    (e : Env) (req : CreateRequest) (h : History) (map : GoMap HaveOther)
    → IsContr (
        (r : Outcome Volume × History) × IsAnswerOf HaveOther map
          (λ m. create_volume e (record req { parameters = m }) h)
          r)
create_volume_unordered e req h =
    has_answer HaveOther answer_set (λ m. create_volume e (record req { parameters = m }) h)
      (create_volume-perm e req h)
