-- ===== src/Cluster.antt =====
-- The Kubernetes API as the controller sees it: the objects that it reads, the calls that it makes,
-- and the answers, which are a parameter. An answer may depend on all calls before it.
use kcover.Shared.{ℕ, Bool, List, Option, Result, String}
pub mod Calls

pub record Taint : Type 0 where
  pub key : String
  pub effect : String

pub record Node : Type 0 where
  pub node_name : String
  pub unschedulable : Bool
  pub taints : List Taint
  pub resource_version : String

pub record Owner : Type 0 where
  pub uid : String
  pub kind : String
  pub api_version : String
  pub owner_name : String

pub record Pod : Type 0 where
  pub namespace : String
  pub pod_name : String
  pub labels : List (String × String)
  pub restart_policy : String
  pub owners : List Owner

pub record ConfigMap : Type 0 where
  pub data_map : List (String × String)
  pub map_version : String

pub data ApiError : Type 0 where
  not_found conflict already_exists other : ApiError

-- One request, or one use of the clock or of the label cache.
pub data Call : Type 0 where
  pod_get : String → String → Call
  pods_list : String → Call
  pods_delete : String → String → Call
  node_get : String → Call
  node_update : Node → Call
  cache_get : String → Call
  cache_set : String → List (String × String) → Call
  owner_get : Owner → String → Call
  ledger_get : Call
  ledger_create : ConfigMap → Call
  ledger_update : ConfigMap → Call
  clock_read : Call

-- The answers; the list holds the calls so far, the last one first. Of a write it says whether it
-- failed. The last four are crypto/sha256 with hex, time.Format and time.Parse, and the environment.
pub record Cluster : Type 0 where
  pub get_pod : List Call → String → String → Result ApiError Pod
  pub list_pods : List Call → String → Result ApiError (List Pod)
  pub delete_pods : List Call → String → String → Option ApiError
  pub get_node : List Call → String → Result ApiError Node
  pub update_node : List Call → Node → Option ApiError
  pub cached_labels : List Call → String → Option (List (String × String))
  pub get_owner_labels : List Call → Owner → String → Result ApiError (List (String × String))
  pub get_ledger : List Call → Result ApiError ConfigMap
  pub create_ledger : List Call → ConfigMap → Option ApiError
  pub update_ledger : List Call → ConfigMap → Option ApiError
  pub clock : List Call → ℕ
  pub hash_key : List ℕ → String
  pub format_time : ℕ → String
  pub parse_time : String → Option ℕ
  pub current_namespace : String
