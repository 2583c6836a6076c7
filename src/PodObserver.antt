-- ===== src/PodObserver.antt =====
-- pkg/podobserver/observer.go: the pods that an informer shows to the rules, and what the rules ask
-- for. The informer itself and the field selector are client-go's.
pub mod Failures
pub mod Reports
pub mod Updates
pub mod Deserved
pub mod Submitted
pub mod Arrivals
mod TwoTexts
mod ObserverTests
use kcover.Shared.{
  ℕ, ℤ, Bool, List, Option, String, [], if◌then◌else◌, lookup, not, or_default, ◌++◌, ◌==◌, ◌∷◌,
  text_eq,
}
use kcover.Cluster.{Owner}
use kcover.Events.{Event}
use kcover.Api.{PreflightReport}

-- What the status of a terminated container says.
pub record Terminated : Type 0 where
  pub exit_reason : String
  pub exit_message : String
  pub exit_code : ℤ
  pub finished_at : ℕ

-- The status of a container; the fields that the program does not read are one text.
pub record ContainerStatus : Type 0 where
  pub container_name : String
  pub terminated : Option Terminated
  pub unread : String

-- A corev1.Pod with the fields that the rules read; `controller` is metav1.GetControllerOf.
pub record WatchedPod : Type 0 where
  pub pod_namespace : String
  pub watched_name : String
  pub pod_uid : String
  pub version : String
  pub pod_labels : List (String × String)
  pub pod_annotations : List (String × String)
  pub assigned_node : String
  pub controller : Option Owner
  pub container_statuses : List ContainerStatus
  pub init_container_statuses : List ContainerStatus

-- What a rule asks for: an event for the sink, or a report for the publisher.
pub data Output : Type 0 where
  publish : Event → Output
  submit : PreflightReport → Output

-- A PodRule; the last field is false for a rule that is no initialListPolicy.
pub record PodRule : Type 0 where
  pub on_add : WatchedPod → List Output
  pub on_update : WatchedPod → WatchedPod → List Output
  pub should_handle_initial_list : Bool

-- `labels[key]`
abbrev pub value_at : String → List (String × String) → String
value_at key m = or_default "" (lookup key m)

-- Observer.onAdd; an error of the sink is logged, and the next event is recorded all the same.
unfoldable pub add_to_rules : List PodRule → WatchedPod → List Output
add_to_rules [] pod = []
add_to_rules (rule ∷ rules) pod = rule.on_add pod ++ add_to_rules rules pod

unfoldable pub initial_to_rules : List PodRule → WatchedPod → List Output
initial_to_rules [] pod = []
initial_to_rules (rule ∷ rules) pod =
    let rest = initial_to_rules rules pod in
    if rule.should_handle_initial_list then rule.on_add pod ++ rest else rest

-- Observer.handleAdd
unfoldable pub handle_add : List PodRule → WatchedPod → Bool → List Output
unfolding add_to_rules initial_to_rules
handle_add rules pod is_in_initial_list =
    if not is_in_initial_list then add_to_rules rules pod else initial_to_rules rules pod

-- Observer.onUpdate
unfoldable pub update_rules : List PodRule → WatchedPod → WatchedPod → List Output
update_rules [] old new = []
update_rules (rule ∷ rules) old new = rule.on_update old new ++ update_rules rules old new

-- The UpdateFunc of Observer.Start.
unfoldable pub handle_update : List PodRule → WatchedPod → WatchedPod → List Output
unfolding update_rules
handle_update rules old new = if new.version == old.version then [] else update_rules rules old new
