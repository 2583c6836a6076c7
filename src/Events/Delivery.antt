-- ===== src/Events/Delivery.antt =====
-- pkg/events/kubeevent_transport.go: forwardK8sEvent and runQueueForwarder, until the context ends.
use kcover.Shared.{
  Bool, List, Option, [], if◌then◌else◌, length, ltb, none, some, ◌++◌, ◌∷◌, Bool-cases, arith, inl,
  inr, keep, refl, ℕ, ◌+◌, ◌≡◌, length-append, subst, true, ◌≤◌,
}
use kcover.Events.{Event}

-- The channel holds one event; the forwarder holds the event that it took from the queue; `received` is
-- what the controller has read from the channel.
pub record Transport : Type 0 where
  pub event_ch : List Event
  pub queue : List Event
  pub held : Option Event
  pub received : List Event

abbrev pub new_transport : Transport
new_transport = record { event_ch = []; queue = []; held = none; received = [] }

-- The channel has room for one event.
abbrev pub has_room : Transport → Bool
has_room s = ltb (length s.event_ch) 1

-- forwardK8sEvent: into the channel if there is room, into the queue otherwise. Every event is a new
-- pointer, so that the queue merges none.
unfoldable pub forward_event : Event → Transport → Transport
forward_event e s =
    if has_room s
    then record s { event_ch = s.event_ch ++ (e ∷ []) }
    else record s { queue = s.queue ++ (e ∷ []) }

-- The two waits of runQueueForwarder; the state stays as it is where one has to wait.
abbrev pub take_first : Option Event → List Event → Transport → Transport
take_first none (e ∷ rest) s = record s { queue = rest; held = some e }
take_first none [] s = s
take_first (some e) events s = s

unfoldable pub take_from_queue : Transport → Transport
take_from_queue s = take_first s.held s.queue s

abbrev pub send : Option Event → Transport → Transport
send none s = s
send (some e) s =
    if has_room s then record s { event_ch = s.event_ch ++ (e ∷ []); held = none } else s

unfoldable pub send_held : Transport → Transport
send_held s = send s.held s

-- The controller reads the channel.
abbrev pub receive_first : List Event → Transport → Transport
receive_first [] s = s
receive_first (e ∷ rest) s = record s { event_ch = rest; received = s.received ++ (e ∷ []) }

unfoldable pub receive : Transport → Transport
receive s = receive_first s.event_ch s

pub data Turn : Type 0 where
  arrives : Event → Turn
  takes sends receives : Turn

unfoldable pub step : Transport → Turn → Transport
step s (arrives e) = forward_event e s
step s takes = take_from_queue s
step s sends = send_held s
step s receives = receive s

unfoldable pub run_turns : Transport → List Turn → Transport
run_turns s [] = s
run_turns s (turn ∷ rest) = run_turns (step s turn) rest

abbrev pub arrivals : List Turn → List Event
arrivals [] = []
arrivals (arrives e ∷ rest) = e ∷ arrivals rest
arrivals (takes ∷ rest) = arrivals rest
arrivals (sends ∷ rest) = arrivals rest
arrivals (receives ∷ rest) = arrivals rest

abbrev pub count : (Event → Bool) → List Event → ℕ
count p events = length (keep p events)

abbrev pub held_events : Option Event → List Event
held_events none = []
held_events (some e) = e ∷ []

-- The events of a kind that are on their way or received.
abbrev pub total : (Event → Bool) → Transport → ℕ
total p s = count p s.received + count p s.event_ch + count p (held_events s.held) + count p s.queue

count-append :
    (p : Event → Bool) (xs ys : List Event) → count p (xs ++ ys) ≡ count p xs + count p ys
count-append p [] ys = omega arith
count-append p (x ∷ xs) ys = ground (arith, count-append p xs ys)

take-total :
    (p : Event → Bool) (held : Option Event) (events : List Event) (s : Transport)
    → s.held ≡ held
    → s.queue ≡ events
    → total p (take_first held events s) ≡ total p s
take-total p none (e ∷ rest) s h q = rw (h, q) (ground arith)
take-total p none [] s h q = refl
take-total p (some e) events s h q = refl

send-total :
    (p : Event → Bool) (held : Option Event) (s : Transport)
    → s.held ≡ held
    → total p (send held s) ≡ total p s
send-total p none s h = refl
send-total p (some e) s h = elim (Bool-cases (has_room s)) [
  | inl room ↦ rw (room, h) (ground (arith, count-append p s.event_ch (e ∷ [])))
  | inr full ↦ rw full refl
]

receive-total :
    (p : Event → Bool) (events : List Event) (s : Transport)
    → s.event_ch ≡ events
    → total p (receive_first events s) ≡ total p s
receive-total p [] s h = refl
receive-total p (e ∷ rest) s h = rw h (ground (arith, count-append p s.received (e ∷ [])))

forward-total :
    (p : Event → Bool) (e : Event) (s : Transport)
    → total p (forward_event e s) ≡ total p s + count p (e ∷ [])
unfolding forward_event
forward-total p e s = elim (Bool-cases (has_room s)) [
  | inl room ↦ rw room (omega (arith, count-append p s.event_ch (e ∷ [])))
  | inr full ↦ rw full (omega (arith, count-append p s.queue (e ∷ [])))
]

step-total :
    (p : Event → Bool) (s : Transport) (turn : Turn)
    → total p (step s turn) ≡ total p s + count p (arrivals (turn ∷ []))
unfolding step take_from_queue send_held receive
step-total p s (arrives e) = forward-total p e s
step-total p s takes = omega (arith, take-total p s.held s.queue s refl refl)
step-total p s sends = omega (arith, send-total p s.held s refl)
step-total p s receives = omega (arith, receive-total p s.event_ch s refl)

count-arrivals :
    (p : Event → Bool) (turn : Turn) (rest : List Turn)
    → count p (arrivals (turn ∷ rest)) ≡ count p (arrivals (turn ∷ [])) + count p (arrivals rest)
count-arrivals p (arrives e) rest = ground arith
count-arrivals p takes rest = omega arith
count-arrivals p sends rest = omega arith
count-arrivals p receives rest = omega arith

run-total :
    (p : Event → Bool) (s : Transport) (turns : List Turn)
    → total p (run_turns s turns) ≡ total p s + count p (arrivals turns)
unfolding run_turns
run-total p s [] = omega arith
run-total p s (turn ∷ rest) =
    omega (arith, run-total p (step s turn) rest, step-total p s turn, count-arrivals p turn rest)

take-bound :
    (held : Option Event) (events : List Event) (s : Transport)
    → length s.event_ch ≤ 1
    → length (take_first held events s).event_ch ≤ 1
take-bound none (e ∷ rest) s b = b
take-bound none [] s b = b
take-bound (some e) events s b = b

receive-bound :
    (events : List Event) (s : Transport)
    → s.event_ch ≡ events
    → length s.event_ch ≤ 1
    → length (receive_first events s).event_ch ≤ 1
receive-bound [] s h b = b
receive-bound (e ∷ rest) s h b =
    let whole : length (e ∷ rest) ≤ 1 = subst (λ xs. length xs ≤ 1) h b in omega arith

room-bound : (e : Event) (s : Transport) → has_room s ≡ true → length (s.event_ch ++ (e ∷ [])) ≤ 1
room-bound e s room = ground (arith, length-append s.event_ch (e ∷ []))

send-bound :
    (held : Option Event) (s : Transport)
    → length s.event_ch ≤ 1
    → length (send held s).event_ch ≤ 1
send-bound none s b = b
send-bound (some e) s b = elim (Bool-cases (has_room s)) [
  | inl room ↦ rw room (room-bound e s room)
  | inr full ↦ rw full b
]

step-bound :
    (s : Transport) (turn : Turn) → length s.event_ch ≤ 1 → length (step s turn).event_ch ≤ 1
unfolding step forward_event take_from_queue send_held receive
step-bound s (arrives e) b = elim (Bool-cases (has_room s)) [
  | inl room ↦ rw room (room-bound e s room)
  | inr full ↦ rw full b
]
step-bound s takes b = take-bound s.held s.queue s b
step-bound s sends b = send-bound s.held s b
step-bound s receives b = receive-bound s.event_ch s refl b

run-bound :
    (s : Transport) (turns : List Turn)
    → length s.event_ch ≤ 1
    → length (run_turns s turns).event_ch ≤ 1
unfolding run_turns
run-bound s [] b = b
run-bound s (turn ∷ rest) b = run-bound (step s turn) rest (step-bound s turn b)

-- In whatever order the goroutines take their turns, no event is lost or doubled: of each kind of event,
-- those received, in the channel, in the forwarder's hand and in the queue are together as many as
-- arrived; and the channel holds one event at most.
pub no_event_lost :
    (p : Event → Bool) (turns : List Turn)
    → (total p (run_turns new_transport turns) ≡ count p (arrivals turns))
      × (length (run_turns new_transport turns).event_ch ≤ 1)
no_event_lost p turns =
    (omega (arith, run-total p new_transport turns), run-bound new_transport turns (omega arith))
