-- ===== src/Recovery/NodeError.antt =====
-- pkg/recovery/recovery.go: onNodeError, on its own and behind the event transport.
use kcover.Shared.{
  Bool, List, Result, String, [], err, false, ok, refl, true, ◌==◌, ◌∷◌, ◌≡◌, text_eq, Bool-cases,
  ap, inl, inr, some, ℕ, none, not, if◌then◌else◌, ◌⊎◌, arith,
}
use kcover.Cluster.{Call, ApiError, Cluster, Pod, pod_get, Node, node_get, pods_list}
use kcover.Recovery.Controller.{
  on_pod_error, on_pod_errors, recover_pod, jobs_of_pods, list_jobs_on_node, mark_node,
  on_node_error, on_event,
}
use kcover.Events.{
  Event, KubeEvent, day2_event_reason, event_added, event_updated, internal_event,
  is_node_object_ref, is_pod_object_ref, is_preflight_event, needs_recovery, node_resource,
  pod_resource, should_watch_event, to_internal_event, to_internal_recovery_event,
}
use kcover.Events.Filter.{event_added_iff}

-- One lookup of a pod for each job, under the job's name.
abbrev pub lookups : List (String × String) → List Call → List Call
lookups [] h = h
lookups ((namespace, job) ∷ rest) h = lookups rest (pod_get namespace job ∷ h)

abbrev pub is_err : Result ApiError Pod → Bool
is_err (err e) = true
is_err (ok pod) = false

updated_cases :
    (preflight needs pod node here : Bool) (p n e : Event)
    → (if preflight
        then none
        else if not needs
        then none
        else if pod
        then some p
        else if node
        then (if here then some n else none)
        else none)
      ≡ some e
    → (e ≡ p) ⊎ ((pod ≡ false) × (node ≡ true) × (e ≡ n))
updated_cases preflight needs pod node here p n e h = ground arith

watched_node :
    (event : KubeEvent) (now : ℕ)
    → should_watch_event event now ≡ true
    → is_node_object_ref event ≡ true
    → (event.reason == day2_event_reason) ≡ true
unfolding should_watch_event
watched_node event now watched node = ground arith

updated_added :
    (current : String) (old event : KubeEvent) (handled_at : ℕ) (e : Event)
    → event_updated current old event handled_at ≡ some e
    → to_internal_event current event ≡ some e
unfolding event_updated
updated_added current old event handled_at e h = ground arith

-- The event of a node that an update hands on has the reason that the filter asks for.
updated_node :
    (current : String) (old event : KubeEvent) (filtered_at handled_at : ℕ) (e : Event)
    → should_watch_event event filtered_at ≡ true
    → event_updated current old event handled_at ≡ some e
    → e.resource_type ≡ node_resource
    → (e.reason == day2_event_reason) ≡ true
unfolding to_internal_event to_internal_recovery_event
updated_node current old event filtered_at handled_at e watched updated about =
    elim (updated_cases (is_preflight_event event) (needs_recovery event) (is_pod_object_ref event)
      (is_node_object_ref event) (event.namespace == current)
      (internal_event pod_resource event.involved_namespace event)
      (internal_event node_resource event.namespace event) e
      (updated_added current old event handled_at e updated)) [
        | inl same ↦ absurd (cc (ap (λ x. x.resource_type) same, about))
        | inr (apart, node, same) ↦ rw same (watched_node event filtered_at watched node)
      ]

module _ (c : Cluster) where
  failed_lookup :
      (namespace : String) (h : List Call) (r : Result ApiError Pod)
      → is_err r ≡ true
      → recover_pod c r namespace h ≡ (h, tt)
  failed_lookup namespace h (err e) f = refl
  failed_lookup namespace h (ok pod) f = absurd (cc)

  -- No pod bears the name of one of the jobs.
  abbrev pub NoPodNamed : List (String × String) → Type 0
  NoPodNamed [] = Unit
  NoPodNamed ((namespace, job) ∷ rest) =
      ((h : List Call) → is_err (c.get_pod h namespace job) ≡ true) × NoPodNamed rest

  on_pod_errors-lookups :
      (jobs : List (String × String)) (h : List Call)
      → NoPodNamed jobs
      → on_pod_errors c jobs h ≡ (lookups jobs h, tt)
  unfolding on_pod_errors on_pod_error
  on_pod_errors-lookups [] h f = refl
  on_pod_errors-lookups ((namespace, job) ∷ rest) h f =
      let next = pod_get namespace job ∷ h in
      rw (failed_lookup namespace next (c.get_pod h namespace job) (f.0 h))
        (on_pod_errors-lookups rest next f.1)

  -- If the pods on a failed node are listed, and no pod bears the name of the job of one of them, then
  -- an error of a node that still takes pods and is not a day-2 finding restarts nothing: the node and
  -- its pods are read, each job is looked up as if it were a pod, and the node is marked.
  pub node_error_restarts_nothing :
      (event : Event) (node : Node) (pods : List Pod) (h : List Call)
      → c.get_node h event.name ≡ ok node
      → node.unschedulable ≡ false
      → (event.reason == day2_event_reason) ≡ false
      → c.list_pods (node_get event.name ∷ h) event.name ≡ ok pods
      → NoPodNamed (jobs_of_pods c pods [])
      → on_node_error c event h
        ≡ mark_node c event.name
            (lookups (jobs_of_pods c pods []) (pods_list event.name ∷ node_get event.name ∷ h))
  unfolding on_node_error list_jobs_on_node
  node_error_restarts_nothing event node pods h found open_node reason listed none_named =
      let jobs = jobs_of_pods c pods [] in
      rw
        (
          found,
          open_node,
          reason,
          listed,
          on_pod_errors-lookups jobs (pods_list event.name ∷ node_get event.name ∷ h) none_named,
        )
        refl

  marks_only :
      (event : Event) (node : Node) (h : List Call)
      → event.resource_type ≡ node_resource
      → (event.reason == day2_event_reason) ≡ true
      → c.get_node h event.name ≡ ok node
      → on_event c event h ≡ mark_node c event.name (node_get event.name ∷ h)
  unfolding on_event on_node_error
  marks_only event node h about day2 found = elim (Bool-cases node.unschedulable) [
    | inl closed ↦ rw (about, found, closed) refl
    | inr open_node ↦ rw (about, found, open_node, day2) refl
  ]

  -- The handler of new events behind the filter, or that of updates, of which the filter lets through
  -- what passes as the new version.
  abbrev pub IsHandedOn :
      String → KubeEvent → KubeEvent → (filtered_at handled_at : ℕ) → Event → Type 0
  IsHandedOn current old event filtered_at handled_at e =
      (event_added current event filtered_at handled_at ≡ some e)
      ⊎ ((should_watch_event event filtered_at ≡ true)
          × (event_updated current old event handled_at ≡ some e))

  handed_on_node :
      (current : String) (old event : KubeEvent) (filtered_at handled_at : ℕ) (e : Event)
      → IsHandedOn current old event filtered_at handled_at e
      → e.resource_type ≡ node_resource
      → (e.reason == day2_event_reason) ≡ true
  handed_on_node current old event filtered_at handled_at e (inl added) about =
      let (_, _, _, _, kind) = (event_added_iff current event filtered_at handled_at e).0 added in
      elim kind [
        | inl (pod, same) ↦ absurd (cc (ap (λ x. x.resource_type) same, about))
        | inr (ref, day2, here, same) ↦ rw same day2
      ]
  handed_on_node current old event filtered_at handled_at e (inr (watched, updated)) about =
      updated_node current old event filtered_at handled_at e watched updated about

  -- An event of a node that the transport hands on, new or as an update of an earlier one, only marks
  -- the node, if the node is found: the part of onNodeError that restarts jobs is not reached by it.
  pub transported_node_event :
      (current : String) (old event : KubeEvent) (filtered_at handled_at : ℕ) (e : Event)
      (node : Node) (h : List Call)
      → IsHandedOn current old event filtered_at handled_at e
      → e.resource_type ≡ node_resource
      → c.get_node h e.name ≡ ok node
      → on_event c e h ≡ mark_node c e.name (node_get e.name ∷ h)
  transported_node_event current old event filtered_at handled_at e node h handed about found =
      marks_only e node h about
        (handed_on_node current old event filtered_at handled_at e handed about) found
