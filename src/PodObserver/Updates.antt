-- ===== src/PodObserver/Updates.antt =====
-- pkg/detector/pod/pod_status.go: which updates of a pod the rule on failed containers looks at.
use mathlib.Core.List.{append-nil}
use kcover.PodObserver.{
  ContainerStatus, Terminated, WatchedPod, publish, handle_update, update_rules,
}
use kcover.PodObserver.Failures.{
  container_error_rule, pod_events, should_check_pod_update, statuses_beq, terminated_beq,
  update_events,
}
use kcover.Shared.{
  Bool, Bool-cases, List, Option, [], arith, eq_iff, false, inl, inr, int_beq, map, nat_beq_iff,
  none, refl, some, true, ◌==◌, ◌↔◌, ◌∷◌, ◌≡◌, ◌≢◌, ◌⊎◌, text_eq, nat_eq, eq_of_==, ℤ, pos, negsuc,
}

int_beq_iff : (a b : ℤ) → (int_beq a b ≡ true) ↔ (a ≡ b)
int_beq_iff (pos a) (pos b) = ground (arith, nat_beq_iff a b)
int_beq_iff (negsuc a) (negsuc b) = ground (arith, nat_beq_iff a b)
int_beq_iff (pos a) (negsuc b) = ground arith
int_beq_iff (negsuc a) (pos b) = ground arith

terminated_beq_iff : (a b : Option Terminated) → (terminated_beq a b ≡ true) ↔ (a ≡ b)
terminated_beq_iff none none = ground arith
terminated_beq_iff none (some b) = ground arith
terminated_beq_iff (some a) none = ground arith
terminated_beq_iff (some a) (some b) = ground (
  arith,
  eq_iff a.exit_reason b.exit_reason,
  eq_iff a.exit_message b.exit_message,
  int_beq_iff a.exit_code b.exit_code,
  nat_beq_iff a.finished_at b.finished_at,
)

statuses_beq_iff : (xs ys : List ContainerStatus) → (statuses_beq xs ys ≡ true) ↔ (xs ≡ ys)
statuses_beq_iff [] [] = ground arith
statuses_beq_iff [] (y ∷ ys) = ground arith
statuses_beq_iff (x ∷ xs) [] = ground arith
statuses_beq_iff (x ∷ xs) (y ∷ ys) = ground (
  arith,
  eq_iff x.container_name y.container_name,
  terminated_beq_iff x.terminated y.terminated,
  eq_iff x.unread y.unread,
  statuses_beq_iff xs ys,
)

-- An update that is looked at, and one that is not.
abbrev pub IsSame : WatchedPod → WatchedPod → Type 0
IsSame old pod =
    (pod.version ≡ old.version)
    ⊎ ((old.container_statuses ≡ pod.container_statuses)
        × (old.init_container_statuses ≡ pod.init_container_statuses))

abbrev pub IsChanged : WatchedPod → WatchedPod → Type 0
IsChanged old pod =
    (pod.version ≢ old.version)
    × ((old.container_statuses ≢ pod.container_statuses)
        ⊎ (old.init_container_statuses ≢ pod.init_container_statuses))

differ : {E : Type 0} (b : Bool) → b ≡ false → (E → b ≡ true) → E → ⊥
differ b h f e = absurd (cc (f e, h))

pub update_cases :
    (old pod : WatchedPod)
    → (IsSame old pod × (handle_update (container_error_rule ∷ []) old pod ≡ []))
      ⊎ (IsChanged old pod
          × (handle_update (container_error_rule ∷ []) old pod ≡ map publish (pod_events pod)))
unfolding handle_update update_rules update_events should_check_pod_update
update_cases old pod = elim (Bool-cases (pod.version == old.version)) [
  | inl same ↦ inl (inl (eq_of_== pod.version old.version same), rw same refl)
  | inr moved ↦ elim (Bool-cases (statuses_beq old.container_statuses pod.container_statuses)) [
    | inl main ↦
        elim (Bool-cases (statuses_beq old.init_container_statuses pod.init_container_statuses)) [
          | inl init ↦ inl (
            inr (
              (statuses_beq_iff old.container_statuses pod.container_statuses).0 main,
              (statuses_beq_iff old.init_container_statuses pod.init_container_statuses).0 init,
            ),
            rw (moved, main, init) refl,
          )
          | inr other ↦ inr (
            (
              differ (pod.version == old.version) moved ((eq_iff pod.version old.version).1),
              inr (
                  differ (statuses_beq old.init_container_statuses pod.init_container_statuses)
                    other
                    ((statuses_beq_iff old.init_container_statuses pod.init_container_statuses).1)),
            ),
            rw (moved, main, other) (append-nil (map publish (pod_events pod))),
          )
        ]
    | inr other ↦ inr (
      (
        differ (pod.version == old.version) moved ((eq_iff pod.version old.version).1),
        inl (
            differ (statuses_beq old.container_statuses pod.container_statuses) other
              ((statuses_beq_iff old.container_statuses pod.container_statuses).1)),
      ),
      rw (moved, other) (append-nil (map publish (pod_events pod))),
    )
  ]
]
