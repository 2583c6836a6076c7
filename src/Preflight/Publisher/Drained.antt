-- ===== src/Preflight/Publisher/Drained.antt =====
-- pkg/preflight/report_publisher.go: the run of a publisher to which nothing is submitted any more.
use kcover.Preflight.Publisher.{
  Publisher, PublisherState, WorkQueue, WriteOutcome, idle, process_next, work_step, finish,
  already_there, passing_error, permanent_error, was_created, Worker, go_on, leaves, took,
  until_idle, work, writes_report, Move, new_report_publisher, run_moves,
}
use kcover.Preflight.Publisher.Kept.{
  IsKept, work_step-IsKept, holds, run_moves-IsServed, IsServed, run_moves-IsServed, is_stopped,
}
use kcover.Shared.{
  Bool, List, Option, String, [], false, lookup, refl, some, true, ◌∷◌, ◌≡◌, text_eq, Bool-cases,
  Option-cases, all, ap, arith, contains, inl, inr, keys, length, none, subst, sym, ◌≤◌,
}
use kcover.Events.{Event}
use kcover.Api.{PreflightReport}

abbrev pub is_final : WriteOutcome → Bool
is_final passing_error = false
is_final _ = true

module _ (wq : WorkQueue) where
  open wq use {Queue, get_key, done, forget, size}

  -- Turns of processNext, one for each outcome.
  unfoldable pub drain : List WriteOutcome → Publisher Queue → Publisher Queue
  drain [] p = p
  drain (outcome ∷ outcomes) p = drain outcomes (process_next wq outcome p)

  abbrev resting :
      PublisherState → List (String × PreflightReport) → Queue → List Event → Publisher Queue
  resting s pending q seen = record {
    publisher_state = s;
    pending = pending;
    queue = q;
    worker = idle;
    observations = seen;
  }

  IsTurn : Publisher Queue → String → Queue → Type 0
  IsTurn p k rest = (p.worker ≡ idle) × (p.queue ≡ done k (forget k rest))

  turn :
      (s : PublisherState) (pending : List (String × PreflightReport)) (q rest : Queue)
      (seen : List Event) (k : String) (outcome : WriteOutcome)
      → get_key q ≡ some (k, rest)
      → is_final outcome ≡ true
      → IsTurn (process_next wq outcome (resting s pending q seen)) k rest
  unfolding IsTurn process_next work_step go_on finish
  turn s pending q rest seen k was_created e final = elim (Option-cases (lookup k pending)) [
    | inl gone ↦ rw (e, gone) (refl, refl)
    | inr (r, there) ↦ rw (e, there) (refl, refl)
  ]
  turn s pending q rest seen k already_there e final = elim (Option-cases (lookup k pending)) [
    | inl gone ↦ rw (e, gone) (refl, refl)
    | inr (r, there) ↦ rw (e, there) (refl, refl)
  ]
  turn s pending q rest seen k permanent_error e final = elim (Option-cases (lookup k pending)) [
    | inl gone ↦ rw (e, gone) (refl, refl)
    | inr (r, there) ↦ rw (e, there) (refl, refl)
  ]
  turn s pending q rest seen k passing_error e final = absurd (cc)

  -- A worker without keys waits.
  waits :
      (s : PublisherState) (pending : List (String × PreflightReport)) (q : Queue)
      (seen : List Event) (outcome : WriteOutcome)
      → get_key q ≡ none
      → process_next wq outcome (resting s pending q seen) ≡ resting s pending q seen
  unfolding process_next work_step go_on
  waits s pending q seen outcome e = rw e refl

  go_on-IsKept :
      (outcome : WriteOutcome) (p : Publisher Queue) → IsKept wq p → IsKept wq (go_on wq outcome p)
  unfolding go_on work_step
  go_on-IsKept outcome p h = by_worker p.worker refl
    where
      by_worker : (w : Worker) → p.worker ≡ w → IsKept wq (until_idle wq w outcome p)
      by_worker idle e = h
      by_worker (took k) e =
          subst (λ w. IsKept wq (work wq w outcome p)) e (work_step-IsKept wq outcome p h)
      by_worker (writes_report k r) e =
          subst (λ w. IsKept wq (work wq w outcome p)) e (work_step-IsKept wq outcome p h)
      by_worker (leaves k) e =
          subst (λ w. IsKept wq (work wq w outcome p)) e (work_step-IsKept wq outcome p h)

  process_next-IsKept :
      (outcome : WriteOutcome) (p : Publisher Queue)
      → IsKept wq p
      → IsKept wq (process_next wq outcome p)
  unfolding process_next
  process_next-IsKept o p h =
      go_on-IsKept o _ (go_on-IsKept o _ (go_on-IsKept o _ (work_step-IsKept wq o p h)))

  none_pending :
      (p : Publisher Queue)
      → p.worker ≡ idle
      → get_key p.queue ≡ none
      → IsKept wq p
      → (j : String) → contains (keys p.pending) j ≡ false
  unfolding IsKept
  none_pending p w e h j = elim (Bool-cases (contains (keys p.pending) j)) [
    | inl there ↦
        absurd (ground (arith, h.1 j there, wq.none_left p.queue e j, ap (λ x. holds x j) w))
    | inr gone ↦ gone
  ]

  as_resting :
      (p : Publisher Queue)
      → p.worker ≡ idle
      → p ≡ resting p.publisher_state p.pending p.queue p.observations
  as_resting p w = cc

  drain_waits :
      (outcomes : List WriteOutcome) (p : Publisher Queue)
      → p.worker ≡ idle
      → get_key p.queue ≡ none
      → drain outcomes p ≡ p
  unfolding drain
  drain_waits [] p w e = refl
  drain_waits (o ∷ outcomes) p w e =
      let same : process_next wq o p ≡ p =
        subst (λ x. process_next wq o x ≡ x) (sym (as_resting p w))
          (waits p.publisher_state p.pending p.queue p.observations o e) in
      subst (λ x. drain outcomes x ≡ p) (sym same) (drain_waits outcomes p w e)

  turn_of :
      (p : Publisher Queue) (rest : Queue) (k : String) (outcome : WriteOutcome)
      → p.worker ≡ idle
      → get_key p.queue ≡ some (k, rest)
      → is_final outcome ≡ true
      → IsTurn (process_next wq outcome p) k rest
  turn_of p rest k outcome w e final =
      subst (λ x. IsTurn (process_next wq outcome x) k rest) (sym (as_resting p w))
        (turn p.publisher_state p.pending p.queue rest p.observations k outcome e final)

  -- With one turn for each outcome, from the last turn to the first.
  drain-none_pending :
      (outcomes : List WriteOutcome) (p : Publisher Queue)
      → IsKept wq p
      → p.worker ≡ idle
      → all is_final outcomes ≡ true
      → size p.queue ≤ length outcomes
      → (o : Option (String × Queue)) → get_key p.queue ≡ o
      → (j : String) → contains (keys (drain outcomes p).pending) j ≡ false
  unfolding drain IsTurn
  drain-none_pending outcomes p h w finals enough none e =
      rw (drain_waits outcomes p w e) (none_pending p w e h)
  drain-none_pending [] p h w finals enough (some (k, rest)) e =
      absurd (omega (arith, wq.fewer p.queue rest k e))
  drain-none_pending (x ∷ outcomes) p h w finals enough (some (k, rest)) e =
      let next = process_next wq x p in
      let (idle_again, queue_after) = turn_of p rest k x w e (ground arith) in
      drain-none_pending outcomes next (process_next-IsKept x p h) idle_again (ground arith)
        (rw queue_after (omega (arith, wq.fewer p.queue rest k e))) (get_key next.queue) refl

  -- Whatever was submitted and written before, as long as the publisher is not stopped: from a state
  -- in which the worker is between two turns of processNext, if nothing is submitted any more and no
  -- write fails for a passing reason, then a turn of the worker for each key that the queue holds
  -- leaves no report pending.
  pub run_moves-drain :
      (moves : List Move) (outcomes : List WriteOutcome)
      → is_stopped (run_moves wq (new_report_publisher wq) moves).publisher_state ≡ false
      → (run_moves wq (new_report_publisher wq) moves).worker ≡ idle
      → all is_final outcomes ≡ true
      → size (run_moves wq (new_report_publisher wq) moves).queue ≤ length outcomes
      → (j : String)
      → contains (keys (drain outcomes (run_moves wq (new_report_publisher wq) moves)).pending) j
        ≡ false
  unfolding IsServed
  run_moves-drain moves outcomes live w finals enough =
      let p = run_moves wq (new_report_publisher wq) moves in
      drain-none_pending outcomes p (run_moves-IsServed wq moves live) w finals enough
        (get_key p.queue) refl
