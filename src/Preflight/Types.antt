-- ===== src/Preflight/Types.antt =====
-- pkg/preflight/types.go and the types of slow_node_aggregator.go: what one node reports and what
-- is known of a workload. `nodeName` and `nodeIP` are texts, a batch index is a number.
use kcover.Shared.{
  ℕ, String, List, Bool, ◌≡◌, ◌↔◌, ◌&&◌, arith, eq_iff, Eq, ◌==◌, nat_beq_iff, true, nat_eq,
  text_eq, pos, ℤ,
}

pub record BatchResult : Type 0 where
  pub batch_idx : ℕ
  pub pair_first : String
  pub pair_second : String
  pub self_ip : String
  pub failed : Bool

pub record NodeReport : Type 0 where
  pub node_name : String
  pub self_ip : String
  pub fail_fast : Bool
  pub batch_results : List BatchResult

-- map[nodeName]nodeReport
abbrev pub NodeReports : Type 0
NodeReports = List (String × NodeReport)

pub record PairKey : Type 0 where
  pub batch : ℕ
  pub first : String
  pub second : String

abbrev pub pair_key_beq : PairKey → PairKey → Bool
pair_key_beq a b = a.batch == b.batch && a.first == b.first && a.second == b.second

pub pair_key_beq_iff : (a b : PairKey) → (pair_key_beq a b ≡ true) ↔ (a ≡ b)
pair_key_beq_iff a b =
    ground (arith, nat_beq_iff a.batch b.batch, eq_iff a.first b.first, eq_iff a.second b.second)

instance abbrev pub pair_key_eq : Eq PairKey
pair_key_eq = record { beq = pair_key_beq; beq_iff = pair_key_beq_iff }

pub record WorkloadPlan : Type 0 where
  pub report_count : ℕ
  pub batch_count : ℕ

pub record WorkloadKey : Type 0 where
  pub namespace : String
  pub workload_uid : String
  pub workload_name : String

abbrev pub workload_key_beq : WorkloadKey → WorkloadKey → Bool
workload_key_beq a b =
    a.namespace == b.namespace
    && a.workload_uid == b.workload_uid
    && a.workload_name == b.workload_name

pub workload_key_beq_iff : (a b : WorkloadKey) → (workload_key_beq a b ≡ true) ↔ (a ≡ b)
workload_key_beq_iff a b = ground (
  arith,
  eq_iff a.namespace b.namespace,
  eq_iff a.workload_uid b.workload_uid,
  eq_iff a.workload_name b.workload_name,
)

instance abbrev pub workload_key_eq : Eq WorkloadKey
workload_key_eq = record { beq = workload_key_beq; beq_iff = workload_key_beq_iff }

-- types.go: CheckResult is an integer; these are its named values.
abbrev pub check_result_skip : ℤ
check_result_skip = pos 0

abbrev pub check_result_pass : ℤ
check_result_pass = pos 1

abbrev pub check_result_fail : ℤ
check_result_fail = pos 2

-- Report: one preflight result of one node.
pub record Report : Type 0 where
  pub version : ℤ
  pub workload : String
  pub workload_size : ℤ
  pub rank : ℤ
  pub node_name : String
  pub node_ip : String
  pub gpu_check : ℤ
  pub storage_check : ℤ

-- What extractNodeReport returns.
pub record Extracted : Type 0 where
  pub report : Report
  pub plan : WorkloadPlan
  pub batch_results : List BatchResult

-- Times are numbers of nanoseconds; 0 is the zero time.
pub record Workload : Type 0 where
  pub expected_report_count : ℕ
  pub expected_batch_count : ℕ
  pub node_reports : NodeReports
  pub last_report_at : ℕ
  pub first_observed_at : ℕ
  pub last_observed_at : ℕ

pub record WorkloadTimeoutError : Type 0 where
  pub namespace : String
  pub workload_uid : String
  pub workload_name : String
  pub reported_nodes : List String
  pub received_reports : ℕ
  pub expected_reports : ℕ
  pub timeout : ℕ

-- The errors of report_parser.go and preflight.go.
pub data ParseError : Type 0 where
  bad_json empty_node_name missing_workload_size oversized odd_workload_size : ParseError
  bad_batch_payload bad_batch_idx batch_idx_out_of_range duplicate_batch_idx : ParseError
  bad_pair bad_self_ip self_ip_not_in_pair bad_performance_fields bad_threshold : ParseError
  not_an_integer bad_number : ParseError
