-- ===== src/Preflight/PublisherTests.antt =====
-- The publisher with a queue that is a list without repetition, and two reports.
use kcover.Preflight.Publisher.{
  Move, WorkQueue, submits, works, was_created, passing_error, already_there, finish, idle,
  new_report_publisher, publisher_step, run_moves, submit_report, work_step, start_publisher,
  is_started, Publisher, publisher_running,
}
use kcover.Preflight.Publisher.Kept.{is_stopped, holds}
use kcover.Preflight.Publisher.Accepted.{is_settled, newest, pending-is_served}
use kcover.Shared.{
  List, Option, String, [], add, arith, contains, contains-add, delete, false, insert, keys, length,
  lookup, none, pos, refl, some, ◌<◌, ◌==◌, ◌∷◌, ◌≡◌, ◌≤◌, text_eq, true, ◌||◌, Bool, if◌then◌else◌,
  ok,
}
use kcover.Api.{PreflightReport}
use kcover.Preflight.Publisher.Drained.{drain, run_moves-drain}

-- Whether it is open, and its keys.
abbrev ListQueue : Type 0
ListQueue = Bool × List String

abbrev put_key : String → ListQueue → ListQueue
put_key k (is_open, keys) = (is_open, if is_open then add k keys else keys)

abbrev first_key : Bool → List String → Option (String × ListQueue)
first_key is_open [] = none
first_key is_open (k ∷ rest) = some (k, (is_open, rest))

put-contains :
    (k j : String) (q : ListQueue)
    → q.0 ≡ true
    → contains (put_key k q).1 j ≡ (k == j || contains q.1 j)
put-contains k j (is_open, keys) h = rw h (contains-add k keys j)

put-open : (k : String) (q : ListQueue) → (put_key k q).0 ≡ q.0
put-open k (is_open, keys) = refl

first-open :
    (o : Bool) (keys : List String) (rest : ListQueue) (k : String)
    → first_key o keys ≡ some (k, rest)
    → rest.0 ≡ o
first-open o [] rest k h = absurd (cc)
first-open o (i ∷ keys) rest k h = ground arith

stays :
    (o : Bool) (keys : List String) (rest : ListQueue) (k j : String)
    → first_key o keys ≡ some (k, rest)
    → (k == j) ≡ false
    → contains rest.1 j ≡ contains keys j
stays o [] rest k j h apart = absurd (cc)
stays o (i ∷ keys) rest k j h apart = ground arith

nothing_left :
    (o : Bool) (keys : List String)
    → first_key o keys ≡ none
    → (j : String) → contains keys j ≡ false
nothing_left o [] h j = refl
nothing_left o (i ∷ keys) h j = absurd (cc)

shorter :
    (o : Bool) (keys : List String) (rest : ListQueue) (k : String)
    → first_key o keys ≡ some (k, rest)
    → length rest.1 < length keys
shorter o [] rest k h = absurd (cc)
shorter o (i ∷ keys) rest k h = ground arith

abbrev list_queue : WorkQueue
list_queue = record {
  Queue = ListQueue;
  empty_queue = (true, []);
  add_key = put_key;
  add_rate_limited = put_key;
  get_key = λ q. first_key q.0 q.1;
  done = λ k q. q;
  forget = λ k q. q;
  shut_down = λ q. (false, q.1);
  will_come = λ q. contains q.1;
  size = λ q. length q.1;
  is_open = λ q. q.0;
  new_open = refl;
  add_open = put-open;
  retry_open = put-open;
  get_open = λ q. first-open q.0 q.1;
  done_open = λ k q. refl;
  forget_open = λ k q. refl;
  added = put-contains;
  retried = put-contains;
  others_stay = λ q. stays q.0 q.1;
  done_keeps = λ k j q. refl;
  forget_keeps = λ k j q. refl;
  none_left = λ q. nothing_left q.0 q.1;
  fewer = λ q. shorter q.0 q.1;
}

abbrev sent_as : String → PreflightReport
sent_as report_name = record {
  namespace = "ns";
  name = report_name;
  owners = [];
  workload_name = "job";
  workload_uid = "u1";
  node_name = "node-7";
  rank = pos 0;
  report = "{}";
  observed_at = 5;
}

-- Two reports, the first of which is not written at once.
abbrev demo_moves : List Move
demo_moves =
    is_started
    ∷ submits (sent_as "a")
    ∷ works passing_error
    ∷ works passing_error
    ∷ submits (sent_as "b")
    ∷ works passing_error
    ∷ works passing_error
    ∷ []

demo_idle : (run_moves list_queue (new_report_publisher list_queue) demo_moves).worker ≡ idle
unfolding run_moves publisher_step submit_report work_step finish lookup insert delete add
    start_publisher
demo_idle = refl

demo_size : length (run_moves list_queue (new_report_publisher list_queue) demo_moves).queue.1 ≤ 2
unfolding run_moves publisher_step submit_report work_step finish lookup insert delete add
    start_publisher
demo_size = omega arith

demo_live :
    is_stopped (run_moves list_queue (new_report_publisher list_queue) demo_moves).publisher_state
    ≡ false
unfolding run_moves publisher_step submit_report work_step finish lookup insert delete add
    start_publisher
demo_live = refl

abbrev after_start : Publisher ListQueue
after_start = run_moves list_queue (new_report_publisher list_queue) (is_started ∷ [])

abbrev after_submit : Publisher ListQueue
after_submit = record {
  publisher_state = publisher_running;
  pending = ("ns/a", sent_as "a") ∷ [];
  queue = (true, "ns/a" ∷ []);
  worker = idle;
  observations = [];
}

demo_submitted : submit_report list_queue after_start (sent_as "a") ≡ ok after_submit
unfolding run_moves publisher_step submit_report insert add start_publisher
demo_submitted = refl

-- Another report is submitted, and the first once more; the first write fails for a passing reason.
abbrev demo_later : List Move
demo_later =
    submits (sent_as "b")
    ∷ works was_created
    ∷ works was_created
    ∷ submits (record (sent_as "a") { report = "newer" })
    ∷ works passing_error
    ∷ works passing_error
    ∷ []

demo_unsettled : is_settled list_queue after_submit demo_later "ns/a" ≡ false
unfolding is_settled publisher_step submit_report work_step finish lookup insert delete add
    start_publisher
demo_unsettled = refl

demo_running : is_stopped (run_moves list_queue after_submit demo_later).publisher_state ≡ false
unfolding run_moves publisher_step submit_report work_step finish lookup insert delete add
    start_publisher
demo_running = refl

pending-is_served_example :
    (lookup "ns/a" (run_moves list_queue after_submit demo_later).pending
      ≡ some (newest list_queue after_submit demo_later (sent_as "a") "ns/a"))
    × ((contains (run_moves list_queue after_submit demo_later).queue.1 "ns/a"
          || holds (run_moves list_queue after_submit demo_later).worker "ns/a")
        ≡ true)
pending-is_served_example =
    pending-is_served list_queue (is_started ∷ []) demo_later (sent_as "a") after_submit
      demo_submitted demo_unsettled demo_running

run_moves-drain_example :
    contains
      (keys
        (drain list_queue
          (was_created ∷ already_there ∷ [])
          (run_moves list_queue (new_report_publisher list_queue) demo_moves)).pending)
      "ns/a"
    ≡ false
run_moves-drain_example =
    run_moves-drain list_queue demo_moves (was_created ∷ already_there ∷ []) demo_live demo_idle
      refl demo_size "ns/a"
