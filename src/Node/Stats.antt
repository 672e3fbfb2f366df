-- ===== src/Node/Stats.antt =====
-- `NodeGetVolumeStats`.
use csi_driver_nfs_export.Base.{String, ℤ, List, [], ◌∷◌, Option, none, some, ◌==◌, if◌then◌else◌}
use csi_driver_nfs_export.Api.Objects.{Metrics}
use csi_driver_nfs_export.Api.Exec.{
  on_option, Exec, pure, raise, ◌>>=◌, ◌>>◌, raise_if, invalid_argument, internal, not_found,
  stats_id_empty, stats_path_empty, path_missing, stat_failed, metrics_failed, number_unreadable,
}
use csi_driver_nfs_export.Api.Client.{Env, lstat, stat_fs}

pub data UsageUnit : Type 0 where
  bytes inode_count : UsageUnit

-- csi.VolumeUsage
pub record Usage : Type 0 where
  pub usage_unit : UsageUnit
  pub available : ℤ
  pub total : ℤ
  pub used : ℤ

-- `n, ok := q.AsInt64(); if !ok { return nil, status.Errorf(codes.Internal, …) }`
abbrev pub as_int64 : String → Option ℤ → Exec ℤ
as_int64 name none = raise internal (number_unreadable name)
as_int64 name (some n) = pure n

unfoldable pub usages_of : Metrics → Exec (List Usage)
usages_of m = do
  available ← as_int64 "available" m.available
  capacity ← as_int64 "capacity" m.capacity
  used ← as_int64 "used" m.used
  inodes_free ← as_int64 "inodes free" m.inodes_free
  inodes ← as_int64 "inodes" m.inodes
  inodes_used ← as_int64 "inodes used" m.inodes_used
  pure (
      record { usage_unit = bytes; available = available; total = capacity; used = used }
      ∷ record {
        usage_unit = inode_count;
        available = inodes_free;
        total = inodes;
        used = inodes_used;
      }
      ∷ [])

module _ (e : Env) where
  unfoldable pub volume_stats : String → String → Exec (List Usage)
  unfolding usages_of
  volume_stats id path = do
    raise_if (id == "") invalid_argument stats_id_empty
    raise_if (path == "") invalid_argument stats_path_empty
    info ← lstat e path
    on_option info.error (pure tt) (λ f.
        if f.not_exist
        then raise not_found (path_missing path)
        else raise internal (stat_failed path f))
    got ← stat_fs e path
    on_option got.error (pure tt) (λ f. raise internal (metrics_failed f))
    usages_of got.value
