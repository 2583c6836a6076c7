-- ===== src/Preflight/Publisher/Kept.antt =====
-- pkg/preflight/report_publisher.go: the pending reports between the steps of the publisher.
use kcover.Preflight.Publisher.{
  Publisher, WorkQueue, Worker, got, idle, leaves, looked_up, took, writes_report, finish, Move,
  PublisherState, WriteOutcome, accepted, already_there, is_running, new_report_publisher,
  passing_error, permanent_error, publisher_running, publisher_step, report_key, run_moves,
  submit_report, submits, was_created, work, work_step, works, wrote, publisher_new,
  publisher_stopped, start_publisher, started, stop_publisher, stopped_from, with_state, is_ended,
  is_started,
}
use kcover.Shared.{
  Bool, Bool-cases, Option, String, ap, arith, contains, contains-keys-delete, contains-keys-lookup,
  eq_iff, false, inl, inr, keys, lookup, none, some, true, ◌==◌, ◌||◌, ◌≡◌, text_eq, List, [],
  contains-keys-insert, not, refl, ◌∷◌, ◌∙◌,
}
use kcover.Api.{PreflightReport}

abbrev pub is_stopped : PublisherState → Bool
is_stopped publisher_stopped = true
is_stopped _ = false

-- The worker has a key and will still look at its report or write it.
abbrev pub holds : Worker → String → Bool
holds idle j = false
holds (took k) j = k == j
holds (writes_report k r) j = k == j
holds (leaves k) j = false

module _ (wq : WorkQueue) where
  open wq use {Queue, will_come, is_open}

  -- Every pending report is one that the queue will hand out or that the worker is about to write.
  abbrev pub AllCome : Publisher Queue → Type 0
  AllCome p =
      (j : String)
      → contains (keys p.pending) j ≡ true
      → (will_come p.queue j || holds p.worker j) ≡ true

  unfoldable pub IsKept : Publisher Queue → Type 0
  IsKept p = (is_open p.queue ≡ true) × AllCome p

  got-IsKept :
      (o : Option (String × Queue)) (p : Publisher Queue)
      → wq.get_key p.queue ≡ o
      → p.worker ≡ idle
      → IsKept p
      → IsKept (got wq o p)
  unfolding IsKept
  got-IsKept none p e w h = h
  got-IsKept (some (k, rest)) p e w h = (
    wq.get_open p.queue rest k e ∙ h.0,
    λ j there. elim (Bool-cases (k == j)) [
      | inl here ↦ ground arith
      | inr apart ↦
          ground
            (arith, wq.others_stay p.queue rest k j e apart, h.1 j there, ap (λ x. holds x j) w)
    ],
  )

  looked_up-IsKept :
      (k : String) (o : Option PreflightReport) (p : Publisher Queue)
      → lookup k p.pending ≡ o
      → p.worker ≡ took k
      → IsKept p
      → IsKept (looked_up wq k o p)
  unfolding IsKept
  looked_up-IsKept k none p e w h = (
    wq.forget_open k p.queue ∙ h.0,
    λ j there. ground (
      arith,
      h.1 j there,
      ap (λ x. holds x j) w,
      wq.forget_keeps k j p.queue,
      contains-keys-lookup p.pending k,
      eq_iff k j,
    ),
  )
  looked_up-IsKept k (some r) p e w h =
      (h.0, λ j there. ground (arith, h.1 j there, ap (λ x. holds x j) w))

  finish-IsKept :
      (k : String) (p : Publisher Queue)
      → is_open p.queue ≡ true
      → ((j : String) → contains (keys p.pending) j ≡ true → (will_come p.queue j || k == j) ≡ true)
      → IsKept (finish wq k p)
  unfolding IsKept finish
  finish-IsKept k p o h = (
    wq.forget_open k p.queue ∙ o,
    λ j there. ground (arith, h j, contains-keys-delete k p.pending j, wq.forget_keeps k j p.queue),
  )

  wrote-IsKept :
      (k : String) (r : PreflightReport) (outcome : WriteOutcome) (p : Publisher Queue)
      → p.worker ≡ writes_report k r
      → IsKept p
      → IsKept (wrote wq outcome k r p)
  unfolding IsKept
  wrote-IsKept k r outcome p w h = by_outcome outcome
    where
      pending_comes :
          (j : String) → contains (keys p.pending) j ≡ true → (will_come p.queue j || k == j) ≡ true
      pending_comes j there = ground (arith, h.1 j there, ap (λ x. holds x j) w)

      by_outcome : (o : WriteOutcome) → IsKept (wrote wq o k r p)
      by_outcome permanent_error = finish-IsKept k p h.0 pending_comes
      by_outcome already_there = finish-IsKept k p h.0 pending_comes
      by_outcome was_created = finish-IsKept k p h.0 pending_comes
      by_outcome passing_error = (
        wq.retry_open k p.queue ∙ h.0,
        λ j there. ground (arith, pending_comes j there, wq.retried k j p.queue h.0),
      )

  leaves-IsKept :
      (k : String) (p : Publisher Queue)
      → p.worker ≡ leaves k
      → IsKept p
      → IsKept (record p { queue = wq.done k p.queue; worker = idle })
  unfolding IsKept
  leaves-IsKept k p w h = (
    wq.done_open k p.queue ∙ h.0,
    λ j there. ground (arith, h.1 j there, ap (λ x. holds x j) w, wq.done_keeps k j p.queue),
  )

  pub work_step-IsKept :
      (outcome : WriteOutcome) (p : Publisher Queue) → IsKept p → IsKept (work_step wq outcome p)
  unfolding work_step
  work_step-IsKept outcome p h = by_worker p.worker refl
    where
      by_worker : (w : Worker) → p.worker ≡ w → IsKept (work wq w outcome p)
      by_worker idle e = got-IsKept (wq.get_key p.queue) p refl e h
      by_worker (took k) e = looked_up-IsKept k (lookup k p.pending) p refl e h
      by_worker (writes_report k r) e = wrote-IsKept k r outcome p e h
      by_worker (leaves k) e = leaves-IsKept k p e h

  submit_report-IsKept :
      (p : Publisher Queue) (r : PreflightReport)
      → IsKept p
      → IsKept (accepted wq p (submit_report wq p r))
  unfolding IsKept submit_report
  submit_report-IsKept p r h = elim (Bool-cases (r.namespace == "" || r.name == "")) [
    | inl bad ↦ rw bad h
    | inr good ↦ elim (Bool-cases (not (is_running p.publisher_state))) [
      | inl off ↦ rw (good, off) h
      | inr on ↦
          rw (good, on)
            (
              wq.add_open (report_key r) p.queue ∙ h.0,
              λ j there. ground (
                arith,
                h.1 j,
                contains-keys-insert (report_key r) r p.pending j,
                wq.added (report_key r) j p.queue h.0,
              ),
            )
    ]
  ]

  submit_report-state :
      (p : Publisher Queue) (r : PreflightReport)
      → (accepted wq p (submit_report wq p r)).publisher_state ≡ p.publisher_state
  unfolding submit_report
  submit_report-state p r = elim (Bool-cases (r.namespace == "" || r.name == "")) [
    | inl bad ↦ rw bad refl
    | inr good ↦ elim (Bool-cases (not (is_running p.publisher_state))) [
      | inl off ↦ rw (good, off) refl
      | inr on ↦ rw (good, on) refl
    ]
  ]

  got-state :
      (o : Option (String × Queue)) (p : Publisher Queue)
      → (got wq o p).publisher_state ≡ p.publisher_state
  got-state none p = refl
  got-state (some (k, rest)) p = refl

  looked_up-state :
      (k : String) (o : Option PreflightReport) (p : Publisher Queue)
      → (looked_up wq k o p).publisher_state ≡ p.publisher_state
  looked_up-state k none p = refl
  looked_up-state k (some r) p = refl

  wrote-state :
      (k : String) (r : PreflightReport) (outcome : WriteOutcome) (p : Publisher Queue)
      → (wrote wq outcome k r p).publisher_state ≡ p.publisher_state
  unfolding finish
  wrote-state k r was_created p = refl
  wrote-state k r already_there p = refl
  wrote-state k r permanent_error p = refl
  wrote-state k r passing_error p = refl

  work_step-state :
      (outcome : WriteOutcome) (p : Publisher Queue)
      → (work_step wq outcome p).publisher_state ≡ p.publisher_state
  unfolding work_step
  work_step-state outcome p = by_worker p.worker
    where
      by_worker : (w : Worker) → (work wq w outcome p).publisher_state ≡ p.publisher_state
      by_worker idle = got-state (wq.get_key p.queue) p
      by_worker (took k) = looked_up-state k (lookup k p.pending) p
      by_worker (writes_report k r) = wrote-state k r outcome p
      by_worker (leaves k) = refl

  -- Until the publisher is stopped, it keeps what it has accepted.
  unfoldable pub IsServed : Publisher Queue → Type 0
  IsServed p = is_stopped p.publisher_state ≡ false → IsKept p

  started-IsServed :
      (p : Publisher Queue) (s : PublisherState)
      → p.publisher_state ≡ s
      → IsServed p
      → IsServed (accepted wq p (with_state wq p (started wq s)))
  unfolding IsServed IsKept
  started-IsServed p publisher_new e h = λ live. h (rw e refl)
  started-IsServed p publisher_running e h = λ live. h (rw e refl)
  started-IsServed p publisher_stopped e h = h

  stopped-IsServed :
      (p : Publisher Queue) (s : PublisherState)
      → p.publisher_state ≡ s
      → IsServed p
      → IsServed (stopped_from wq s p)
  unfolding IsServed
  stopped-IsServed p publisher_new e h = λ live. absurd (cc)
  stopped-IsServed p publisher_running e h = λ live. absurd (cc)
  stopped-IsServed p publisher_stopped e h = h

  pub step-IsServed :
      (p : Publisher Queue) (move : Move) → IsServed p → IsServed (publisher_step wq p move)
  unfolding publisher_step IsServed start_publisher stop_publisher
  step-IsServed p (submits r) h =
      λ live. submit_report-IsKept p r (h (rw⁻¹ (submit_report-state p r) live))
  step-IsServed p (works outcome) h =
      λ live. work_step-IsKept outcome p (h (rw⁻¹ (work_step-state outcome p) live))
  step-IsServed p is_started h = started-IsServed p p.publisher_state refl h
  step-IsServed p is_ended h = stopped-IsServed p p.publisher_state refl h

  pub moves-IsServed :
      (p : Publisher Queue) (moves : List Move) → IsServed p → IsServed (run_moves wq p moves)
  unfolding run_moves
  moves-IsServed p [] h = h
  moves-IsServed p (move ∷ moves) h =
      moves-IsServed (publisher_step wq p move) moves (step-IsServed p move h)

  pub run_moves-IsServed :
      (moves : List Move) → IsServed (run_moves wq (new_report_publisher wq) moves)
  unfolding IsServed IsKept
  run_moves-IsServed moves =
      moves-IsServed (new_report_publisher wq) moves (λ live. (wq.new_open, λ j there. absurd (cc)))
