-- ===== src/Preflight/Publisher/Accepted.antt =====
-- pkg/preflight/report_publisher.go: what becomes of a report that Submit has accepted.
use kcover.Preflight.Publisher.{
  Move, Publisher, PublishError, PublisherState, WorkQueue, Worker, WriteOutcome, accepted,
  already_there, finish, got, idle, is_ended, is_running, is_started, leaves, looked_up,
  new_report_publisher, passing_error, permanent_error, publisher_new, publisher_running,
  publisher_step, publisher_stopped, report_key, run_moves, start_publisher, started,
  stop_publisher, stopped_from, submit_report, submits, took, was_created, with_state, work,
  work_step, works, writes_report, wrote,
}
use kcover.Preflight.Publisher.Kept.{
  IsKept, IsServed, holds, is_stopped, moves-IsServed, run_moves-IsServed, step-IsServed,
}
use kcover.Preflight.Publisher.Drained.{is_final}
use kcover.Shared.{
  ==_refl, Bool, Bool-cases, List, Option, Result, String, [], arith, contains-keys-lookup, err,
  false, if◌then◌else◌, inl, inr, lookup, lookup-delete, lookup-insert, none, not, ok, refl, some,
  subst, true, ◌&&◌, ◌==◌, ◌||◌, ◌∷◌, ◌≡◌, text_eq,
}
use kcover.Api.{PreflightReport}

abbrev pub writes_key : Worker → String → Bool
writes_key (writes_report k report) key = k == key
writes_key _ key = false

module _ (wq : WorkQueue) where
  open wq use {Queue, will_come}

  -- The API gives a final answer to the write of a report under the key: it is created, it is there
  -- already, or it is refused for good.
  abbrev pub settles : Publisher Queue → Move → String → Bool
  settles p (works outcome) key = writes_key p.worker key && is_final outcome
  settles p _ key = false

  unfoldable pub is_settled : Publisher Queue → List Move → String → Bool
  is_settled p [] key = false
  is_settled p (move ∷ moves) key =
      settles p move key || is_settled (publisher_step wq p move) moves key

  abbrev pub taken_over :
      Result PublishError (Publisher Queue)
      → PreflightReport
      → PreflightReport
      → String
      → PreflightReport
  taken_over (ok next) new old key = if report_key new == key then new else old
  taken_over (err e) new old key = old

  -- The report that a move leaves under the key.
  abbrev pub newer : Publisher Queue → Move → PreflightReport → String → PreflightReport
  newer p (submits new) old key = taken_over (submit_report wq p new) new old key
  newer p _ old key = old

  -- The last report that was accepted under the key.
  unfoldable pub newest : Publisher Queue → List Move → PreflightReport → String → PreflightReport
  newest p [] report key = report
  newest p (move ∷ moves) report key =
      newest (publisher_step wq p move) moves (newer p move report key) key

  submitted_pending :
      (p : Publisher Queue) (new old : PreflightReport) (key : String)
      → lookup key p.pending ≡ some old
      → lookup key (accepted wq p (submit_report wq p new)).pending
        ≡ some (taken_over (submit_report wq p new) new old key)
  unfolding submit_report
  submitted_pending p new old key h = elim (Bool-cases (new.namespace == "" || new.name == "")) [
    | inl bad ↦ rw bad h
    | inr good ↦ elim (Bool-cases (not (is_running p.publisher_state))) [
      | inl off ↦ rw (good, off) h
      | inr on ↦ rw (good, on) (ground (arith, lookup-insert (report_key new) new p.pending key))
    ]
  ]

  got_pending :
      (o : Option (String × Queue)) (p : Publisher Queue) (key : String) (old : PreflightReport)
      → lookup key p.pending ≡ some old
      → lookup key (got wq o p).pending ≡ some old
  got_pending none p key old h = h
  got_pending (some (k, rest)) p key old h = h

  looked_up_pending :
      (k : String) (o : Option PreflightReport) (p : Publisher Queue) (key : String)
      (old : PreflightReport)
      → lookup key p.pending ≡ some old
      → lookup key (looked_up wq k o p).pending ≡ some old
  looked_up_pending k none p key old h = h
  looked_up_pending k (some report) p key old h = h

  wrote_pending :
      (k : String) (report : PreflightReport) (outcome : WriteOutcome) (p : Publisher Queue)
      (key : String) (old : PreflightReport)
      → ((k == key) && is_final outcome) ≡ false
      → lookup key p.pending ≡ some old
      → lookup key (wrote wq outcome k report p).pending ≡ some old
  unfolding finish
  wrote_pending k report passing_error p key old apart h = h
  wrote_pending k report was_created p key old apart h =
      ground (arith, lookup-delete k p.pending key)
  wrote_pending k report already_there p key old apart h =
      ground (arith, lookup-delete k p.pending key)
  wrote_pending k report permanent_error p key old apart h =
      ground (arith, lookup-delete k p.pending key)

  worked_pending :
      (w : Worker) (outcome : WriteOutcome) (p : Publisher Queue) (key : String)
      (old : PreflightReport)
      → (writes_key w key && is_final outcome) ≡ false
      → lookup key p.pending ≡ some old
      → lookup key (work wq w outcome p).pending ≡ some old
  worked_pending idle outcome p key old apart h = got_pending (wq.get_key p.queue) p key old h
  worked_pending (took k) outcome p key old apart h =
      looked_up_pending k (lookup k p.pending) p key old h
  worked_pending (writes_report k report) outcome p key old apart h =
      wrote_pending k report outcome p key old apart h
  worked_pending (leaves k) outcome p key old apart h = h

  started_pending :
      (p : Publisher Queue) (s : PublisherState)
      → (accepted wq p (with_state wq p (started wq s))).pending ≡ p.pending
  started_pending p publisher_new = refl
  started_pending p publisher_running = refl
  started_pending p publisher_stopped = refl

  stopped_pending :
      (p : Publisher Queue) (s : PublisherState) → (stopped_from wq s p).pending ≡ p.pending
  stopped_pending p publisher_new = refl
  stopped_pending p publisher_running = refl
  stopped_pending p publisher_stopped = refl

  -- A move that settles nothing under the key leaves the newer report pending.
  step_pending :
      (p : Publisher Queue) (move : Move) (key : String) (old : PreflightReport)
      → settles p move key ≡ false
      → lookup key p.pending ≡ some old
      → lookup key (publisher_step wq p move).pending ≡ some (newer p move old key)
  unfolding publisher_step work_step start_publisher stop_publisher
  step_pending p (submits new) key old open_yet h = submitted_pending p new old key h
  step_pending p (works outcome) key old open_yet h =
      worked_pending p.worker outcome p key old open_yet h
  step_pending p is_started key old open_yet h = rw (started_pending p p.publisher_state) h
  step_pending p is_ended key old open_yet h = rw (stopped_pending p p.publisher_state) h

  run_pending :
      (p : Publisher Queue) (moves : List Move) (key : String) (old : PreflightReport)
      → is_settled p moves key ≡ false
      → lookup key p.pending ≡ some old
      → lookup key (run_moves wq p moves).pending ≡ some (newest p moves old key)
  unfolding is_settled newest run_moves
  run_pending p [] key old open_yet h = h
  run_pending p (move ∷ moves) key old open_yet h =
      run_pending (publisher_step wq p move) moves key (newer p move old key) (ground arith)
        (step_pending p move key old (ground arith) h)

  first_pending :
      (p next : Publisher Queue) (r : PreflightReport)
      → submit_report wq p r ≡ ok next
      → lookup (report_key r) next.pending ≡ some r
  unfolding submit_report
  first_pending p next r h =
      ground
        (arith, lookup-insert (report_key r) r p.pending (report_key r), ==_refl (report_key r))

  -- A report that Submit accepts, in whatever state moves from a new publisher on have led to, is not
  -- lost: whatever moves follow, in whatever order and with whatever outcomes of the writes, as long as
  -- the publisher is not stopped and the API has given no final answer to a write under the key of the
  -- report, the last report that was accepted under the key is pending, and the queue will hand the
  -- key out or the worker is about to write under it. A final answer is that the report is created,
  -- is there already, or is refused for good.
  pub pending-is_served :
      (before later : List Move) (r : PreflightReport) (next : Publisher Queue)
      → submit_report wq (run_moves wq (new_report_publisher wq) before) r ≡ ok next
      → is_settled next later (report_key r) ≡ false
      → is_stopped (run_moves wq next later).publisher_state ≡ false
      → (lookup (report_key r) (run_moves wq next later).pending
          ≡ some (newest next later r (report_key r)))
        × ((will_come (run_moves wq next later).queue (report_key r)
              || holds (run_moves wq next later).worker (report_key r))
            ≡ true)
  unfolding IsServed IsKept publisher_step
  pending-is_served before later r next submitted open_yet live =
      let p = run_moves wq (new_report_publisher wq) before in
      let key = report_key r in
      let served : IsServed wq next =
        subst (λ o. IsServed wq (accepted wq p o)) submitted
          (step-IsServed wq p (submits r) (run_moves-IsServed wq before)) in
      let there = run_pending next later key r open_yet (first_pending p next r submitted) in
      let kept = moves-IsServed wq next later served live in
      (
        there,
        kept.1 key (ground (arith, contains-keys-lookup (run_moves wq next later).pending key)),
      )
