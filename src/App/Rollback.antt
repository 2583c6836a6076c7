-- ===== src/App/Rollback.antt =====
-- cmd/kcover/app.go: what is stopped, and in which order.
use kcover.Shared.{
  ℕ, Bool, List, Option, String, [], all, ap, length, refl, suc, sym, true, zero, ◌++◌, ◌+◌, ◌∙◌,
  ◌∷◌, ◌≡◌, text_eq, arith, false, some, subst, Bool-cases, inl, inr,
}
use kcover.App.{
  Life, name_at, start_call, start_components, stop_call, stop_started, new_controller_app,
  start_app, stop_app, Outcome, agent_start, agent_stop,
}

-- The parts are stopped in the reverse of their order.
abbrev pub stops : List String → List Life
stops [] = []
stops (x ∷ xs) = stops xs ++ (stop_call x ∷ [])

abbrev pub starts_of : List String → List Life
starts_of [] = []
starts_of (x ∷ xs) = start_call x ∷ starts_of xs

append_nil : {A : Type 0} (xs : List A) → xs ++ [] ≡ xs
append_nil [] = refl
append_nil (x ∷ xs) = ap (λ ys. x ∷ ys) (append_nil xs)

append_assoc_lem : {A : Type 0} (xs ys zs : List A) → (xs ++ ys) ++ zs ≡ xs ++ (ys ++ zs)
append_assoc_lem [] ys zs = refl
append_assoc_lem (x ∷ xs) ys zs = ap (λ l. x ∷ l) (append_assoc_lem xs ys zs)

stop_first :
    (n : ℕ) (x : String) (xs : List String) (log : List Life)
    → stop_started (suc n) (x ∷ xs) log ≡ stop_started n xs log ++ (stop_call x ∷ [])
unfolding stop_started
stop_first zero x xs log = refl
stop_first (suc n) x xs log = stop_first n x xs (log ++ (stop_call (name_at xs n) ∷ []))

stop_prefix :
    (pre post : List String) (log : List Life)
    → stop_started (length pre) (pre ++ post) log ≡ log ++ stops pre
unfolding stop_started
stop_prefix [] post log = sym (append_nil log)
stop_prefix (x ∷ pre) post log =
    stop_first (length pre) x (pre ++ post) log
    ∙ ap (λ l. l ++ (stop_call x ∷ [])) (stop_prefix pre post log)
    ∙ append_assoc_lem log (stops pre) (stop_call x ∷ [])

no_more : (n : ℕ) → n ≡ n + 0
no_more n = omega arith

zero_add : (n : ℕ) → 0 + n ≡ n
zero_add n = omega arith

one_more : (n m : ℕ) → suc n + m ≡ n + suc m
one_more n m = omega arith

module _ (build : Option (List String)) (starts : String → Bool) where
  -- The parts that start are counted and noted.
  start_prefix :
      (pre rest parts : List String) (n : ℕ) (log : List Life)
      → all starts pre ≡ true
      → start_components build starts (pre ++ rest) parts n log
        ≡ start_components build starts rest parts (n + length pre) (log ++ starts_of pre)
  unfolding start_components
  start_prefix [] rest parts n log good =
      let same = sym (append_nil log) in
      λ i. start_components build starts rest parts (no_more n i) (same i)
  start_prefix (x ∷ pre) rest parts n log good =
      let first : starts x ≡ true = ground arith in
      rw first (
        start_prefix pre rest parts (suc n) (log ++ (start_call x ∷ [])) (ground arith) ∙ λ i.
        start_components build starts rest parts (one_more n (length pre) i)
          (append_assoc_lem log (start_call x ∷ []) (starts_of pre) i))

  -- If the parts before some part start and that one does not, the parts that had started are stopped,
  -- the last one first, and nothing is left running: the app is stopped with no part started.
  pub start_rolls_back :
      (pre : List String) (bad : String) (post : List String) (log : List Life)
      → build ≡ some (pre ++ (bad ∷ post))
      → all starts pre ≡ true
      → starts bad ≡ false
      → start_app build starts new_controller_app log ≡ record {
        app = record { components = some (pre ++ (bad ∷ post)); started = 0; stopped = true };
        success = false;
        log = ((log ++ starts_of pre) ++ (start_call bad ∷ [])) ++ stops pre;
      }
  unfolding start_app start_components
  start_rolls_back pre bad post log built good fails = rw built (
      start_prefix pre (bad ∷ post) (pre ++ (bad ∷ post)) 0 log good
      ∙ rw
          (
            fails,
            zero_add (length pre),
            stop_prefix pre (bad ∷ post) ((log ++ starts_of pre) ++ (start_call bad ∷ [])),
          )
          refl)

  whole_start :
      (parts : List String) (log : List Life)
      → all starts parts ≡ true
      → start_components build starts parts parts 0 log ≡ record {
        app = record { components = some parts; started = length parts; stopped = false };
        success = true;
        log = log ++ starts_of parts;
      }
  unfolding start_components
  whole_start parts log good =
      subst
        (λ l. start_components build starts l parts 0 log ≡ record {
          app = record { components = some parts; started = length parts; stopped = false };
          success = true;
          log = log ++ starts_of parts;
        })
        (append_nil parts)
        (start_prefix parts [] parts 0 log good ∙ rw (zero_add (length parts)) refl)

  whole_stop :
      (parts : List String) (log : List Life)
      → stop_started (length parts) parts log ≡ log ++ stops parts
  whole_stop parts log =
      subst (λ l. stop_started (length parts) l log ≡ log ++ stops parts) (append_nil parts)
        (stop_prefix parts [] log)

  -- If every part starts, the app runs, and Stop stops every part once, the last one first; neither
  -- Start nor Stop makes a call after that.
  pub stop_after_start :
      (parts : List String) (log : List Life)
      → build ≡ some parts
      → all starts parts ≡ true
      → (let up = start_app build starts new_controller_app log in
          let down = stop_app up.app up.log in
          (up.success ≡ true)
          × (down.log ≡ (log ++ starts_of parts) ++ stops parts)
          × ((start_app build starts down.app down.log).success ≡ false)
          × ((start_app build starts down.app down.log).log ≡ down.log)
          × ((stop_app down.app down.log).log ≡ down.log))
  unfolding start_app start_components stop_app
  stop_after_start parts log built good =
      rw (built, whole_start parts log good)
        (refl, whole_stop parts (log ++ starts_of parts), refl, refl, refl)

abbrev pub agent_parts : List String
agent_parts = "report publisher" ∷ "node detector" ∷ "report collector" ∷ []

abbrev pub result_and_log : Outcome → Bool × List Life
result_and_log o = (o.success, o.log)

-- The agent starts, rolls back and stops its three parts as the controller does with a list of them.
pub agent_as_controller :
    (starts : String → Bool) (log : List Life)
    → (agent_start starts log
        ≡ result_and_log (start_app (some agent_parts) starts new_controller_app log))
      × (agent_stop log ≡ stop_started 3 agent_parts log)
unfolding agent_start agent_stop start_app start_components stop_started
agent_as_controller starts log = (
  elim (Bool-cases (starts "report publisher")) [
    | inr a ↦ rw a refl
    | inl a ↦ elim (Bool-cases (starts "node detector")) [
      | inr b ↦ rw (a, b) refl
      | inl b ↦ elim (Bool-cases (starts "report collector")) [
        | inr c ↦ rw (a, b, c) refl
        | inl c ↦ rw (a, b, c) refl
      ]
    ]
  ],
  refl,
)
