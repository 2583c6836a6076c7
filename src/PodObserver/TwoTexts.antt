-- ===== src/PodObserver/TwoTexts.antt =====
-- A library for tests that knows two texts: the file of a report and its compacted form.
use kcover.Shared.{
  Bool, Bool-cases, Option, String, arith, eq_iff, false, if◌then◌else◌, inl, inr, int_beq, negsuc,
  none, pos, refl, some, true, ℕ, ℤ, ◌&&◌, ◌==◌, ◌≡◌, leb, ltb, to_nat, ◌*◌, ◌/◌, text_eq, nat_eq,
}
use kcover.Preflight.Compaction.{Compact}
use kcover.Preflight.Compaction.RoundTrip.{IsJson, sent_report}
use kcover.Preflight.Transport.{Encoders}
use kcover.Preflight.Json.{Fields, Items, Runtime, Value, get_field}
use kcover.Preflight.Types.{Report}

abbrev pub demo_encoders : Encoders
demo_encoders = record { sha256_hex = λ s. "0123456789abcdef"; to_lower = λ s. s }

abbrev pub kept_batch : Items ℕ
kept_batch = Items.cons (Value.obj (Fields.field "batch_idx" (Value.num 8) Fields.end)) Items.nil

-- The test whether these are the batches of the one compacted report.
abbrev pub is_kept_batch : Items ℕ → Bool
is_kept_batch (Items.cons (Value.obj (Fields.field k (Value.num i) Fields.end)) Items.nil) =
    k == "batch_idx" && i == 8
is_kept_batch _ = false

is_kept_batch-eq : (items : Items ℕ) → is_kept_batch items ≡ true → items ≡ kept_batch
is_kept_batch-eq Items.nil h = absurd (cc)
is_kept_batch-eq (Items.cons Value.null rest) h = absurd (cc)
is_kept_batch-eq (Items.cons (Value.bool b) rest) h = absurd (cc)
is_kept_batch-eq (Items.cons (Value.num n) rest) h = absurd (cc)
is_kept_batch-eq (Items.cons (Value.str s) rest) h = absurd (cc)
is_kept_batch-eq (Items.cons (Value.arr a) rest) h = absurd (cc)
is_kept_batch-eq (Items.cons (Value.obj Fields.end) rest) h = absurd (cc)
is_kept_batch-eq (Items.cons (Value.obj (Fields.field k Value.null r)) rest) h = absurd (cc)
is_kept_batch-eq (Items.cons (Value.obj (Fields.field k (Value.bool b) r)) rest) h = absurd (cc)
is_kept_batch-eq (Items.cons (Value.obj (Fields.field k (Value.str s) r)) rest) h = absurd (cc)
is_kept_batch-eq (Items.cons (Value.obj (Fields.field k (Value.arr a) r)) rest) h = absurd (cc)
is_kept_batch-eq (Items.cons (Value.obj (Fields.field k (Value.obj o) r)) rest) h = absurd (cc)
is_kept_batch-eq (Items.cons (Value.obj (Fields.field k (Value.num i) (Fields.field j v r))) rest)
      h =
    absurd (cc)
is_kept_batch-eq
      (Items.cons (Value.obj (Fields.field k (Value.num i) Fields.end)) (Items.cons x rest)) h =
    absurd (cc)
is_kept_batch-eq (Items.cons (Value.obj (Fields.field k (Value.num i) Fields.end)) Items.nil) h =
    ground (arith, eq_iff k "batch_idx")

abbrev pub demo_compact : Compact ℕ
demo_compact = record {
  workload_size = pos 4;
  rank = pos 0;
  node_name = "node-7";
  node_ip = "7";
  gpu_check = pos 1;
  storage_check = pos 1;
  threshold = none;
  batches = kept_batch;
}

abbrev pub is_none : Option String → Bool
is_none none = true
is_none (some s) = false

abbrev pub is_demo : Compact ℕ → Bool
is_demo c =
    int_beq c.workload_size (pos 4)
    && int_beq c.rank (pos 0)
    && c.node_name == "node-7"
    && c.node_ip == "7"
    && int_beq c.gpu_check (pos 1)
    && int_beq c.storage_check (pos 1)
    && is_none c.threshold
    && is_kept_batch c.batches

int_beq-eq : (v : ℤ) (n : ℕ) → int_beq v (pos n) ≡ true → v ≡ pos n
int_beq-eq (pos m) n h = ground arith
int_beq-eq (negsuc m) n h = absurd (cc)

is_none-eq : (o : Option String) → is_none o ≡ true → o ≡ none
is_none-eq none h = refl
is_none-eq (some s) h = absurd (cc)

is_demo-eq : (c : Compact ℕ) → is_demo c ≡ true → c ≡ demo_compact
is_demo-eq c h = ground (
  arith,
  int_beq-eq c.workload_size 4,
  int_beq-eq c.rank 0,
  eq_iff c.node_name "node-7",
  eq_iff c.node_ip "7",
  int_beq-eq c.gpu_check 1,
  int_beq-eq c.storage_check 1,
  is_none-eq c.threshold,
  is_kept_batch-eq c.batches,
)

abbrev pub demo_encode : Compact ℕ → Option String
demo_encode c = if is_demo c then some "small" else none

abbrev pub small_fields : Fields ℕ
small_fields = Fields.field "batches" (Value.arr kept_batch) Fields.end

-- The batch of the file has one more key, which is not sent.
abbrev pub whole_fields : Fields ℕ
whole_fields =
    Fields.field "batches"
      (Value.arr (
        Items.cons
          (Value.obj (
            Fields.field "note" (Value.str "slow")
              (Fields.field "batch_idx" (Value.num 8) Fields.end)))
          Items.nil))
      Fields.end

abbrev pub demo_report : Report
demo_report = record (sent_report demo_compact) { version = pos 1; workload = "other" }

-- Numbers are natural, and no text is a number or an address.
abbrev pub two_texts : Runtime
two_texts = record {
  Float = ℕ;
  of_int = to_nat;
  to_int = λ x. pos x;
  is_whole = λ x. true;
  mul = λ a b. a * b;
  div = λ a b. a / b;
  lt = ltb;
  le = leb;
  is_zero = λ x. x == 0;
  parse_float = λ s. none;
  Address = ℕ;
  parse_address = λ s. none;
  address_gt = λ a b. ltb b a;
  decode_report = λ s.
      if s == ""
      then none
      else if s == "small"
      then some (sent_report demo_compact)
      else some demo_report;
  decode_payload = λ s. if s == "small" then some small_fields else some whole_fields;
}

demo_law :
    (c : Compact ℕ) (text : String)
    → demo_encode c ≡ some text
    → (c ≡ demo_compact) × (text ≡ "small")
demo_law c text h = elim (Bool-cases (is_demo c)) [
  | inl d ↦ (is_demo-eq c d, ground arith)
  | inr d ↦ absurd (ground arith)
]

pub demo-IsJson : IsJson two_texts demo_encode
unfolding get_field
demo-IsJson = record {
  report_law = λ c text h. let (a, b) = demo_law c text h in rw (a, b) refl;
  payload_law =
      λ c text h. let (a, b) = demo_law c text h in rw (a, b) (small_fields, refl, refl, refl);
}
