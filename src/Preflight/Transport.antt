-- ===== src/Preflight/Transport.antt =====
-- pkg/preflight/report_transport.go and reportIdentity of report_event.go: how a report becomes a
-- resource, and which resources a watcher lets through. SHA-256 and strings.ToLower are parameters.
pub mod Names
pub mod Checked
use kcover.Shared.{
  int_text, ◌>>=◌, ◌>>◌, ℕ, ℤ, Bool, List, Option, Result, decimal, err, fail_if, if◌then◌else◌,
  int_beq, is_neg, leb, ltb, map_text, nat_beq, negsuc, none, not, ok, pos, some, suc,
  text_is_empty, text_length, text_take, to_nat, trim_right, trim_with, ◌&&◌, ◌+++◌, ◌-◌, ◌/◌, ◌==◌,
  ◌||◌, String, Char, code, ◌^◌, text_eq, nat_eq, [], length, ◌++◌, ◌∷◌,
}
use kcover.Api.{PreflightReport}
use kcover.Cluster.{Owner}
use kcover.Preflight.Json.{Runtime}
use kcover.Preflight.Types.{ParseError, Report}
use kcover.Preflight.Parser.{parse_report, validate_workload_size}
use kcover.Preflight.Aggregator.{empty_workload_uid}

-- The services of Go's library: the digest of a text in hexadecimal, and the lower case of a text.
pub record Encoders : Type 0 where
  pub sha256_hex : String → String
  pub to_lower : String → String

-- The letters, the digits, the dash and the dot that a name may hold.
abbrev pub is_alnum : ℕ → Bool
is_alnum c = leb b'a' c && leb c b'z' || leb b'0' c && leb c b'9'

abbrev pub is_dash_or_dot : ℕ → Bool
is_dash_or_dot c = nat_beq c b'-' || nat_beq c b'.'

abbrev pub is_name_code : ℕ → Bool
is_name_code c = is_alnum c || is_dash_or_dot c

-- One turn of the loop of namePart.
abbrev pub name_char : Char → Char
name_char c = if is_name_code (code c) then c else "-"

abbrev pub or_unknown : String → String
or_unknown part = if text_is_empty part then "unknown" else part

abbrev pub max_kubernetes_name_length : ℕ
max_kubernetes_name_length = 253

-- Two hexadecimal digits for each of the five bytes.
abbrev pub preflight_report_hash_digits : ℕ
preflight_report_hash_digits = 10

-- The part of a name that the workload gives, cut where it is longer than `most`.
abbrev pub fitted : ℕ → String → String
fitted most workload =
    if ltb most (text_length workload)
    then trim_right is_dash_or_dot (text_take most workload)
    else workload

-- The errors of BuildPreflightReport.
pub data BuildError : Type 0 where
  no_namespace no_workload_name no_workload_uid no_node_name : BuildError
  unparsable : ParseError → BuildError
  other_node rank_out_of_range : BuildError
  bad_layout : ParseError → BuildError
  no_observation_time : BuildError

-- The errors of validateReport.
pub data ReportError : Type 0 where
  nameless without_namespace without_workload_name without_workload_uid without_node : ReportError
  without_report without_time : ReportError
  invalid_report : ParseError → ReportError
  invalid_layout : ParseError → ReportError
  node_differs rank_differs workload_differs : ReportError

-- `fmt.Errorf("…: %w", err)`
abbrev pub wrap {ℓ} : {D E A : Type ℓ} → (D → E) → Result D A → Result E A
wrap f (ok a) = ok a
wrap f (err e) = err (f e)

module _ (encoders : Encoders) where
  open encoders use {sha256_hex, to_lower}

  unfoldable pub name_part : String → String
  name_part value = or_unknown (trim_with is_dash_or_dot (map_text name_char (to_lower value)))

  -- The second argument is the digest of the identity in hexadecimal.
  unfoldable pub preflight_report_name : String → String → String
  preflight_report_name workload_name digest =
      let hash = text_take preflight_report_hash_digits digest in
      let workload = name_part workload_name in
      fitted (max_kubernetes_name_length - text_length hash - 1) workload +++ "-" +++ hash

  unfoldable pub report_identity : String → String → String → ℤ → String → String
  report_identity namespace uid node rank text =
      namespace
      +++ "/"
      +++ uid
      +++ "/"
      +++ node
      +++ "/"
      +++ int_text rank
      +++ "/"
      +++ sha256_hex text

  module _ (rt : Runtime) where
    unfoldable pub build_preflight_report :
        String
        → String
        → String
        → String
        → String
        → ℕ
        → List Owner
        → Result BuildError PreflightReport
    build_preflight_report ns node workload uid text observed own = do
      fail_if (ns == "") no_namespace
      fail_if (workload == "") no_workload_name
      fail_if (uid == "") no_workload_uid
      fail_if (node == "") no_node_name
      payload ← wrap unparsable (parse_report rt text)
      fail_if (not (payload.node_name == node)) other_node
      fail_if (is_neg payload.rank || ltb (2 ^ 31 - 1) (to_nat payload.rank)) rank_out_of_range
      wrap bad_layout (validate_workload_size payload.workload_size)
      fail_if (observed == 0) no_observation_time
      let identity = report_identity ns uid node payload.rank text
      ok (record {
        namespace = ns;
        name = preflight_report_name workload (sha256_hex identity);
        owners = own;
        workload_name = workload;
        workload_uid = uid;
        node_name = node;
        rank = payload.rank;
        report = text;
        observed_at = observed;
      })

module _ (rt : Runtime) where
  unfoldable pub validate_report : PreflightReport → Result ReportError (Unit {0})
  validate_report report = do
    fail_if (report.name == "") nameless
    fail_if (report.namespace == "") without_namespace
    fail_if (report.workload_name == "") without_workload_name
    fail_if (report.workload_uid == "") without_workload_uid
    fail_if (report.node_name == "") without_node
    fail_if (report.report == "") without_report
    fail_if (report.observed_at == 0) without_time
    payload ← wrap invalid_report (parse_report rt report.report)
    wrap invalid_layout (validate_workload_size payload.workload_size)
    fail_if (not (payload.node_name == report.node_name)) node_differs
    fail_if (not (int_beq payload.rank report.rank)) rank_differs
    fail_if (not (payload.workload == "") && not (payload.workload == report.workload_name))
        workload_differs
    ok tt

  abbrev pub if_valid : PreflightReport → Result ReportError (Unit {0}) → Option PreflightReport
  if_valid report (ok u) = some report
  if_valid report (err e) = none

  -- What reportFromObject makes of a resource; `none` where the client's library does not convert it.
  unfoldable pub report_from_object : Option PreflightReport → Option PreflightReport
  unfolding validate_report
  report_from_object none = none
  report_from_object (some report) = if_valid report (validate_report report)

  -- The channel of a watcher has room for this many reports.
  abbrev pub report_channel_size : ℕ
  report_channel_size = 128

  abbrev pub forwarded :
      List PreflightReport → Option PreflightReport → Option (List PreflightReport)
  forwarded channel none = some channel
  forwarded channel (some report) =
      if ltb (length channel) report_channel_size then some (channel ++ (report ∷ [])) else none

  -- KubeReportWatcher.forward until the context ends; `none` while it waits for room.
  unfoldable pub forward_report :
      List PreflightReport → Option PreflightReport → Option (List PreflightReport)
  unfolding report_from_object
  forward_report channel object = forwarded channel (report_from_object object)
