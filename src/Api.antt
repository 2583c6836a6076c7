-- ===== src/Api.antt =====
-- pkg/apis/kcover/v1alpha1/types.go: the resource that carries one report of one node.
use kcover.Shared.{ℕ, List, String, ℤ}
use kcover.Cluster.{Owner}

-- The object's metadata and its spec; the type's own name and version are constants. The time is the
-- number of nanoseconds since the zero time, and the rank is an int32.
pub record PreflightReport : Type 0 where
  pub namespace : String
  pub name : String
  pub owners : List Owner
  pub workload_name : String
  pub workload_uid : String
  pub node_name : String
  pub rank : ℤ
  pub report : String
  pub observed_at : ℕ
