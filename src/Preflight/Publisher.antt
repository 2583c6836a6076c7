-- ===== src/Preflight/Publisher.antt =====
-- pkg/preflight/report_publisher.go: reports are accepted into a map of pending ones and a work queue of
-- their keys, and one worker writes them. The work queue is client-go's, and a parameter with its
-- documented behaviour. What holds the mutex is one step; the worker's turn is four of them, so that
-- a report may be submitted between any two.
pub mod Kept
pub mod Drained
pub mod Accepted
use kcover.Api.{PreflightReport}
use kcover.Events.{Event, node_resource, unknown_event}
use kcover.Shared.{
  Bool, List, Option, Result, String, [], delete, err, false, if◌then◌else◌, insert, lookup, none,
  not, ok, some, true, ℕ, ◌+++◌, ◌++◌, ◌/◌, ◌<◌, ◌==◌, ◌||◌, ◌∷◌, ◌≡◌, text_eq,
}

-- A rate-limiting work queue. `will_come` says of a key that the queue will hand it out: it waits, or it
-- is put back once it is done, or once its delay is over. `size` counts how often it will
-- hand one out, if none is added. A queue that is shut
-- down, and no longer open, takes no more keys.
pub record WorkQueue : Type 1 where
  pub Queue : Type 0
  pub empty_queue : Queue
  pub add_key : String → Queue → Queue
  pub add_rate_limited : String → Queue → Queue
  pub get_key : Queue → Option (String × Queue)
  pub done : String → Queue → Queue
  pub forget : String → Queue → Queue
  pub shut_down : Queue → Queue
  pub will_come : Queue → String → Bool
  pub size : Queue → ℕ
  pub is_open : Queue → Bool
  pub new_open : is_open empty_queue ≡ true
  pub add_open : (k : String) (q : Queue) → is_open (add_key k q) ≡ is_open q
  pub retry_open : (k : String) (q : Queue) → is_open (add_rate_limited k q) ≡ is_open q
  pub get_open :
      (q rest : Queue) (k : String) → get_key q ≡ some (k, rest) → is_open rest ≡ is_open q
  pub done_open : (k : String) (q : Queue) → is_open (done k q) ≡ is_open q
  pub forget_open : (k : String) (q : Queue) → is_open (forget k q) ≡ is_open q
  pub added :
      (k j : String) (q : Queue)
      → is_open q ≡ true
      → will_come (add_key k q) j ≡ (k == j || will_come q j)
  pub retried :
      (k j : String) (q : Queue)
      → is_open q ≡ true
      → will_come (add_rate_limited k q) j ≡ (k == j || will_come q j)
  pub others_stay :
      (q rest : Queue) (k j : String)
      → get_key q ≡ some (k, rest)
      → (k == j) ≡ false
      → will_come rest j ≡ will_come q j
  pub done_keeps : (k j : String) (q : Queue) → will_come (done k q) j ≡ will_come q j
  pub forget_keeps : (k j : String) (q : Queue) → will_come (forget k q) j ≡ will_come q j
  pub none_left : (q : Queue) → get_key q ≡ none → (j : String) → will_come q j ≡ false
  pub fewer :
      (q rest : Queue) (k : String)
      → get_key q ≡ some (k, rest)
      → size (done k (forget k rest)) < size q

pub data PublisherState : Type 0 where
  publisher_new publisher_running publisher_stopped : PublisherState

-- Where the worker is in processNext: before Get, with a key, with a report that it writes, and before
-- Done.
pub data Worker : Type 0 where
  idle : Worker
  took : String → Worker
  writes_report : String → PreflightReport → Worker
  leaves : String → Worker

-- Why a resource is not created.
pub data CreateError : Type 0 where
  resource_exists invalid_resource bad_request no_answer : CreateError

-- KubeReportSink.WriteReport, for the answer of the API; the value says whether the resource is new.
unfoldable pub write_report : Option CreateError → Result CreateError Bool
write_report none = ok true
write_report (some resource_exists) = ok false
write_report (some e) = err e

unfoldable pub is_permanent_report_write_error : CreateError → Bool
is_permanent_report_write_error invalid_resource = true
is_permanent_report_write_error bad_request = true
is_permanent_report_write_error _ = false

-- The four ways in which processNext goes on from a write.
pub data WriteOutcome : Type 0 where
  was_created already_there permanent_error passing_error : WriteOutcome

unfoldable pub outcome_of : Result CreateError Bool → WriteOutcome
outcome_of (ok true) = was_created
outcome_of (ok false) = already_there
outcome_of (err e) = if is_permanent_report_write_error e then permanent_error else passing_error

pub data PublishError : Type 0 where
  without_identity not_running already_stopped : PublishError

pub record Publisher (Q : Type 0) : Type 0 where
  pub publisher_state : PublisherState
  pub pending : List (String × PreflightReport)
  pub queue : Q
  pub worker : Worker
  pub observations : List Event

abbrev pub report_key : PreflightReport → String
report_key report = report.namespace +++ "/" +++ report.name

-- ObservationEvent of report_event.go, which leaves the type of the event empty.
unfoldable pub observation_event : PreflightReport → Event
observation_event report = record {
  resource_type = node_resource;
  namespace = report.namespace;
  name = report.node_name;
  reason = "";
  annotations =
      ("kcover.io/preflight-workload", report.workload_name)
      ∷ ("kcover.io/preflight-report", report.name)
      ∷ [];
  event_type = unknown_event;
  message =
      "preflight report " +++ report.name +++ " received for workload " +++ report.workload_name
      +++ " on node " +++ report.node_name;
}

abbrev pub is_running : PublisherState → Bool
is_running publisher_running = true
is_running _ = false

module _ (wq : WorkQueue) where
  open wq use {Queue, empty_queue, add_key, add_rate_limited, get_key, done, forget}

  abbrev pub new_report_publisher : Publisher Queue
  new_report_publisher = record {
    publisher_state = publisher_new;
    pending = [];
    queue = empty_queue;
    worker = idle;
    observations = [];
  }

  -- ReportPublisher.Start
  abbrev pub started : PublisherState → Result PublishError PublisherState
  started publisher_new = ok publisher_running
  started publisher_running = ok publisher_running
  started publisher_stopped = err already_stopped

  abbrev pub with_state :
      Publisher Queue → Result PublishError PublisherState → Result PublishError (Publisher Queue)
  with_state p (ok s) = ok (record p { publisher_state = s })
  with_state p (err e) = err e

  unfoldable pub start_publisher : Publisher Queue → Result PublishError (Publisher Queue)
  start_publisher p = with_state p (started p.publisher_state)

  -- ReportPublisher.Stop, but for the wait for the worker.
  abbrev pub stopped_from : PublisherState → Publisher Queue → Publisher Queue
  stopped_from publisher_stopped p = p
  stopped_from _ p = record p { publisher_state = publisher_stopped; queue = wq.shut_down p.queue }

  unfoldable pub stop_publisher : Publisher Queue → Publisher Queue
  stop_publisher p = stopped_from p.publisher_state p

  unfoldable pub submit_report :
      Publisher Queue → PreflightReport → Result PublishError (Publisher Queue)
  submit_report p report =
      if report.namespace == "" || report.name == ""
      then err without_identity
      else if not (is_running p.publisher_state)
      then err not_running
      else ok (record p {
        pending = insert (report_key report) report p.pending;
        queue = add_key (report_key report) p.queue;
      })

  abbrev pub got : Option (String × Queue) → Publisher Queue → Publisher Queue
  got none p = p
  got (some (key, rest)) p = record p { queue = rest; worker = took key }

  -- `delete(p.pending, key)` behind `p.queue.Forget(key)`.
  unfoldable pub finish : String → Publisher Queue → Publisher Queue
  finish key p = record p {
    queue = forget key p.queue;
    pending = delete key p.pending;
    worker = leaves key;
  }

  abbrev pub looked_up : String → Option PreflightReport → Publisher Queue → Publisher Queue
  looked_up key none p = record p { queue = forget key p.queue; worker = leaves key }
  looked_up key (some report) p = record p { worker = writes_report key report }

  abbrev pub wrote : WriteOutcome → String → PreflightReport → Publisher Queue → Publisher Queue
  wrote permanent_error key report p = finish key p
  wrote passing_error key report p = record p {
    queue = add_rate_limited key p.queue;
    worker = leaves key;
  }
  wrote already_there key report p = finish key p
  wrote was_created key report p =
      let finished = finish key p in
      record finished { observations = finished.observations ++ (observation_event report ∷ []) }

  -- The next step of the worker; the outcome is that of a write, if it is one.
  abbrev pub work : Worker → WriteOutcome → Publisher Queue → Publisher Queue
  work idle outcome p = got (get_key p.queue) p
  work (took key) outcome p = looked_up key (lookup key p.pending) p
  work (writes_report key report) outcome p = wrote outcome key report p
  work (leaves key) outcome p = record p { queue = done key p.queue; worker = idle }

  unfoldable pub work_step : WriteOutcome → Publisher Queue → Publisher Queue
  work_step outcome p = work p.worker outcome p

  abbrev pub until_idle : Worker → WriteOutcome → Publisher Queue → Publisher Queue
  until_idle idle outcome p = p
  until_idle w outcome p = work w outcome p

  unfoldable pub go_on : WriteOutcome → Publisher Queue → Publisher Queue
  go_on outcome p = until_idle p.worker outcome p

  -- processNext of a worker that is idle, with nothing in between: Get, and three steps at most.
  unfoldable pub process_next : WriteOutcome → Publisher Queue → Publisher Queue
  unfolding work_step go_on
  process_next outcome p = go_on outcome (go_on outcome (go_on outcome (work_step outcome p)))

  abbrev pub accepted : Publisher Queue → Result PublishError (Publisher Queue) → Publisher Queue
  accepted p (ok next) = next
  accepted p (err e) = p

-- What may happen: a report is submitted, the worker goes on, or the publisher is started or stopped.
pub data Move : Type 0 where
  submits : PreflightReport → Move
  works : WriteOutcome → Move
  is_started is_ended : Move

module _ (wq : WorkQueue) where
  unfoldable pub publisher_step : Publisher wq.Queue → Move → Publisher wq.Queue
  publisher_step p (submits report) = accepted wq p (submit_report wq p report)
  publisher_step p (works outcome) = work_step wq outcome p
  publisher_step p is_started = accepted wq p (start_publisher wq p)
  publisher_step p is_ended = stop_publisher wq p

  unfoldable pub run_moves : Publisher wq.Queue → List Move → Publisher wq.Queue
  unfolding publisher_step
  run_moves p [] = p
  run_moves p (move ∷ moves) = run_moves (publisher_step p move) moves
