-- ===== src/PodObserver/Deserved.antt =====
-- pkg/detector/pod/pod_status.go: which events the rule on failed containers publishes, and when.
use mathlib.Core.List.{Memᴰ, append-nil}
use mathlib.Core.List.Memᴰ
use kcover.PodObserver.{
  ContainerStatus, Output, Terminated, WatchedPod, publish, value_at, handle_add, handle_update,
  add_to_rules, initial_to_rules,
}
use kcover.PodObserver.Failures.{
  container_error_rule, container_event, container_events, failure_event, pod_events,
  should_handle_pod,
}
use kcover.Events.{Event}
use kcover.Shared.{
  Bool, Bool-cases, List, Option, String, [], ap, arith, eq_iff, false, inl, inr, keep, length,
  length-append, map, none, refl, some, sym, true, ◌+◌, ◌==◌, ◌↔◌, ◌∙◌, ◌∷◌, ◌≡◌, ◌≢◌, ◌≤◌, ◌⊎◌,
  text_eq, nat_eq, eq_of_==,
}
use kcover.PodObserver.Updates.{IsChanged, IsSame, update_cases}

-- Whether a container has ended in an error.
abbrev pub is_failed : ContainerStatus → Bool
is_failed cs = elim cs.terminated [ none ↦ false | some state ↦ state.exit_reason == "Error" ]

-- An event about one container of the pod that has ended in an error.
abbrev pub IsFailure : WatchedPod → List ContainerStatus → Event → Type 0
IsFailure pod statuses e =
    (cs : ContainerStatus) × (state : Terminated) × Memᴰ cs statuses
    × (cs.terminated ≡ some state)
    × (state.exit_reason ≡ "Error")
    × (e ≡ failure_event pod cs.container_name state)

same_end : {a b : Terminated} → some a ≡ some b → a ≡ b
same_end h = cc

event_iff :
    (pod : WatchedPod) (container : String) (o : Option Terminated) (e : Event)
    → Memᴰ e (container_event pod container o) ↔ (
        (state : Terminated) × (o ≡ some state)
        × (state.exit_reason ≡ "Error")
        × (e ≡ failure_event pod container state))
event_iff pod container none e =
    (λ m. absurd (Memᴰ.not-nil m), λ (state, at, why, same). absurd (cc))
event_iff pod container (some st) e = elim (Bool-cases (st.exit_reason == "Error")) [
  | inl ended ↦ rw ended (
    λ m. elim (Memᴰ.cases_cons m) [
      | inl same ↦ (st, refl, eq_of_== st.exit_reason "Error" ended, same)
      | inr more ↦ absurd (Memᴰ.not-nil more)
    ],
    λ (state, at, why, same).
        Memᴰ.head (same ∙ ap (failure_event pod container) (sym (same_end at))),
  )
  | inr fine ↦ rw fine (
    λ m. absurd (Memᴰ.not-nil m),
    λ (state, at, why, same).
        let reason : st.exit_reason ≡ "Error" = ap (λ x. x.exit_reason) (same_end at) ∙ why in
        absurd (ground (arith, eq_iff st.exit_reason "Error")),
  )
]

container_events-there :
    (pod : WatchedPod) (statuses : List ContainerStatus) (e : Event)
    → Memᴰ e (container_events pod statuses)
    → IsFailure pod statuses e
unfolding container_events
container_events-there pod [] e m = absurd (Memᴰ.not-nil m)
container_events-there pod (cs ∷ rest) e m =
    elim (Memᴰ.append_cases (container_event pod cs.container_name cs.terminated) m) [
      | inl here ↦
          let (state, at, why, same) = (event_iff pod cs.container_name cs.terminated e).0 here in
          (cs, state, Memᴰ.head refl, at, why, same)
      | inr later ↦
          let (c, state, there, at, why, same) = container_events-there pod rest e later in
          (c, state, Memᴰ.tail there, at, why, same)
    ]

pub container_events-reached :
    (pod : WatchedPod) (statuses : List ContainerStatus) (e : Event)
    → IsFailure pod statuses e
    → Memᴰ e (container_events pod statuses)
unfolding container_events
container_events-reached pod [] e (c, state, m, at, why, same) = absurd (Memᴰ.not-nil m)
container_events-reached pod (cs ∷ rest) e (c, state, m, at, why, same) = elim (Memᴰ.cases_cons m) [
  | inl here ↦ Memᴰ.append_left (container_events pod rest) (
      (event_iff pod cs.container_name cs.terminated e).1 (
        state,
        ap (λ x. x.terminated) (sym here) ∙ at,
        why,
        same ∙ ap (λ x. failure_event pod x.container_name state) here,
      ))
  | inr there ↦
      Memᴰ.append_right (container_event pod cs.container_name cs.terminated)
        (container_events-reached pod rest e (c, state, there, at, why, same))
]

length-event :
    (pod : WatchedPod) (cs : ContainerStatus) (o : Option Terminated)
    → cs.terminated ≡ o
    → length (container_event pod cs.container_name o) ≡ length (keep is_failed (cs ∷ []))
length-event pod cs none e = rw e refl
length-event pod cs (some state) e = elim (Bool-cases (state.exit_reason == "Error")) [
  | inl ended ↦ rw (e, ended) refl
  | inr fine ↦ rw (e, fine) refl
]

length-keep-cons :
    (cs : ContainerStatus) (rest : List ContainerStatus)
    → length (keep is_failed (cs ∷ rest))
      ≡ length (keep is_failed (cs ∷ [])) + length (keep is_failed rest)
length-keep-cons cs rest = elim (Bool-cases (is_failed cs)) [
  | inl bad ↦ rw bad (omega arith)
  | inr fine ↦ rw fine (omega arith)
]

length-container_events :
    (pod : WatchedPod) (statuses : List ContainerStatus)
    → length (container_events pod statuses) ≡ length (keep is_failed statuses)
unfolding container_events
length-container_events pod [] = refl
length-container_events pod (cs ∷ rest) = omega (
  arith,
  length-append (container_event pod cs.container_name cs.terminated) (container_events pod rest),
  length-event pod cs cs.terminated refl,
  length-keep-cons cs rest,
  length-container_events pod rest,
)

-- What an added pod is answered with: nothing without the label of recovery, and otherwise the
-- events of its containers.
on_add-whole :
    (pod : WatchedPod) (is_in_initial_list : Bool)
    → handle_add (container_error_rule ∷ []) pod is_in_initial_list ≡ map publish (pod_events pod)
unfolding handle_add add_to_rules initial_to_rules
on_add-whole pod true = append-nil (map publish (pod_events pod))
on_add-whole pod false = append-nil (map publish (pod_events pod))

abbrev pub recovery_label : WatchedPod → String
recovery_label pod = value_at "kcover.io/cascading-recovery" pod.pod_labels

length-map_publish : (es : List Event) → length (map publish es) ≡ length es
length-map_publish [] = refl
length-map_publish (e ∷ es) = omega (arith, length-map_publish es)

pub published_iff :
    (pod : WatchedPod) (is_in_initial_list : Bool) (o : Output)
    → Memᴰ o (handle_add (container_error_rule ∷ []) pod is_in_initial_list) ↔ (
        (recovery_label pod ≢ "")
        × ((e : Event) × IsFailure pod pod.container_statuses e × (o ≡ publish e)))
unfolding pod_events should_handle_pod
published_iff pod b o = rw (on_add-whole pod b) (elim (Bool-cases (recovery_label pod == "")) [
  | inl gone ↦ rw gone (
    λ m. absurd (Memᴰ.not-nil m),
    λ (labelled, failure). absurd (labelled (eq_of_== (recovery_label pod) "" gone)),
  )
  | inr there ↦ rw there (
    λ m.
        let (e, at, same) = Memᴰ.of_map publish (container_events pod pod.container_statuses) m in
        (
          λ unset. absurd (ground (arith, eq_iff (recovery_label pod) "")),
          (e, container_events-there pod pod.container_statuses e at, sym same),
        ),
    λ (labelled, failure). reached failure,
  )
])
  where
    reached :
        ((e : Event) × IsFailure pod pod.container_statuses e × (o ≡ publish e))
        → Memᴰ o (map publish (container_events pod pod.container_statuses))
    reached (e, failure, same) =
        Memᴰ.cast same
          (Memᴰ.map publish (container_events-reached pod pod.container_statuses e failure))

length-published :
    (pod : WatchedPod) (is_in_initial_list : Bool)
    → length (handle_add (container_error_rule ∷ []) pod is_in_initial_list)
      ≤ length (keep is_failed pod.container_statuses)
unfolding pod_events should_handle_pod
length-published pod b = rw (on_add-whole pod b) (elim (Bool-cases (recovery_label pod == "")) [
  | inl gone ↦ rw gone (omega arith)
  | inr there ↦ rw there (
      omega (
        arith,
        length-map_publish (container_events pod pod.container_statuses),
        length-container_events pod pod.container_statuses,
      ))
])

-- The detector publishes an event exactly for each container of the pod that terminated with the
-- reason `Error`, if the pod has the label of recovery, and no more events than there are such
-- containers: for a pod that is new and one that was there before the start alike. An update publishes nothing if the version or the
-- statuses of all containers are as before, and otherwise what the new pod would publish.
pub failures-published :
    (pod old : WatchedPod) (is_in_initial_list : Bool) (o : Output)
    → (Memᴰ o (handle_add (container_error_rule ∷ []) pod is_in_initial_list) ↔ (
        (recovery_label pod ≢ "")
        × ((e : Event) × IsFailure pod pod.container_statuses e × (o ≡ publish e))))
      × (length (handle_add (container_error_rule ∷ []) pod is_in_initial_list)
          ≤ length (keep is_failed pod.container_statuses))
      × ((IsSame old pod × (handle_update (container_error_rule ∷ []) old pod ≡ []))
          ⊎ (IsChanged old pod
              × (handle_update (container_error_rule ∷ []) old pod
                  ≡ handle_add (container_error_rule ∷ []) pod is_in_initial_list)))
failures-published pod old b o =
    (published_iff pod b o, length-published pod b, rw (on_add-whole pod b) (update_cases old pod))
