-- ===== src/Preflight/Compaction.antt =====
-- pkg/preflight/report_event.go: the agent cuts a report down to what the controller reads before it
-- sends it. json.Marshal, os.ReadFile and the path of a report's file are parameters.
pub mod Batches
pub mod RoundTrip
use kcover.Shared.{
  ◌>>=◌, ◌>>◌, List, Option, Result, String, [], err, if◌then◌else◌, none, ok, some, trim_space, ℤ,
  ◌==◌, ◌∷◌, text_eq,
}
use kcover.Preflight.Json.{Fields, Items, Runtime, Value, get_field}
use kcover.Preflight.Types.{ParseError, Report, bad_batch_payload, bad_json, bad_threshold}
use kcover.Preflight.Extraction.{batches_of}
use kcover.Preflight.Parser.{parse_report, unmarshal_report_payload}

-- A compacted report as its map of keys; a threshold is one of the keys if it is there.
pub record Compact (F : Type 0) : Type 0 where
  pub workload_size : ℤ
  pub rank : ℤ
  pub node_name : String
  pub node_ip : String
  pub gpu_check : ℤ
  pub storage_check : ℤ
  pub threshold : Option String
  pub batches : Items F

-- `dst[key] = value`
unfoldable pub put_field : {F : Type 0} → String → Value F → Fields F → Fields F
put_field k v Fields.end = Fields.field k v Fields.end
put_field k v (Fields.field j w rest) =
    if j == k then Fields.field j v rest else Fields.field j w (put_field k v rest)

abbrev pub put_if : {F : Type 0} → String → Option (Value F) → Fields F → Fields F
put_if k none dst = dst
put_if k (some v) dst = put_field k v dst

unfoldable pub copy_if_present : {F : Type 0} → Fields F → Fields F → String → Fields F
copy_if_present dst src key = put_if key (get_field key src) dst

abbrev pub copy_keys : {F : Type 0} → List String → Fields F → Fields F → Fields F
copy_keys [] dst src = dst
copy_keys (k ∷ ks) dst src = copy_keys ks (copy_if_present dst src k) src

-- The nine keys in the order of the calls of copyIfPresent.
abbrev pub compacted_keys : List String
compacted_keys =
    "batch_idx" ∷ "pair" ∷ "self_ip" ∷ "local_rank" ∷ "status" ∷ "allreduce_ms" ∷ "world_size"
    ∷ "allreduce_shape" ∷ "dtype_bytes" ∷ []

unfoldable pub compact_batch : {F : Type 0} → Fields F → Fields F
compact_batch batch = copy_keys compacted_keys Fields.end batch

-- The loop over the batches.
unfoldable pub compact_items : {F : Type 0} → Items F → Result ParseError (Items F)
compact_items Items.nil = ok Items.nil
compact_items (Items.cons (Value.obj batch) rest) = do
  others ← compact_items rest
  ok (Items.cons (Value.obj (compact_batch batch)) others)
compact_items (Items.cons _ rest) = err bad_batch_payload

unfoldable pub compact_bus_bw_threshold :
    {F : Type 0} → Option (Value F) → Result ParseError (Option String)
compact_bus_bw_threshold none = ok none
compact_bus_bw_threshold (some (Value.str text)) =
    if trim_space text == "" then ok none else ok (some (trim_space text))
compact_bus_bw_threshold (some _) = err bad_threshold

abbrev pub encoded : Option String → Result ParseError String
encoded none = err bad_json
encoded (some text) = ok text

-- The errors of LoadReportPayload.
pub data LoadError : Type 0 where
  no_file nameless_node : LoadError
  unparsable_file : ParseError → LoadError

abbrev pub named_payload : Result ParseError (String × String) → Result LoadError (String × String)
named_payload (err e) = err (unparsable_file e)
named_payload (ok (text, node)) = if node == "" then err nameless_node else ok (text, node)

module _ (rt : Runtime) (encode : Compact rt.Float → Option String) where
  abbrev pub compact_of : Report → Option String → Items rt.Float → Compact rt.Float
  compact_of r t items = record {
    workload_size = r.workload_size;
    rank = r.rank;
    node_name = r.node_name;
    node_ip = r.node_ip;
    gpu_check = r.gpu_check;
    storage_check = r.storage_check;
    threshold = t;
    batches = items;
  }

  unfoldable pub compact_report : String → Result ParseError (String × String)
  compact_report text = do
    report ← parse_report rt text
    raw ← unmarshal_report_payload rt text
    threshold ← compact_bus_bw_threshold (get_field "node_check_busbw_threshold_gbps" raw)
    batches ← compact_items (batches_of rt (get_field "batches" raw))
    compact ← encoded (encode (compact_of report threshold batches))
    ok (compact, report.node_name)

  -- The argument is the content of the report's file, if it can be read.
  unfoldable pub load_report_payload : Option String → Result LoadError (String × String)
  load_report_payload none = err no_file
  load_report_payload (some data_text) = named_payload (compact_report data_text)
