-- ===== src/Kube.antt =====
-- pkg/kube/kube.go: TaintNodeUnschedulable, and the names from the environment.
pub mod Marking
use kcover.Shared.{
  ℕ, Bool, Option, Result, String, [], any, err, false, if◌then◌else◌, none, not, ok, some, suc,
  true, zero, ◌&&◌, ◌++◌, ◌==◌, ◌∷◌, text_eq, Bool-cases, inl, inr, refl, trim_space, ◌≡◌,
}
use kcover.Cluster.{
  ApiError, Cluster, Node, Taint, already_exists, conflict, node_get, node_update, not_found, other,
}
use kcover.Cluster.Calls.{◌>>=◌, give, ask, Run}

abbrev pub unschedulable_taint : Taint
unschedulable_taint = record { key = "node.kubernetes.io/unschedulable"; effect = "NoSchedule" }

abbrev pub is_unschedulable_taint : Taint → Bool
is_unschedulable_taint t =
    t.key == unschedulable_taint.key && t.effect == unschedulable_taint.effect

-- The node that the body makes of the one it read, and `changed`.
unfoldable pub mark_unschedulable : Node → Node × Bool
mark_unschedulable node =
    if any is_unschedulable_taint node.taints
    then (record node { unschedulable = true }, not node.unschedulable)
    else (
      record node { unschedulable = true; taints = node.taints ++ (unschedulable_taint ∷ []) },
      true,
    )

-- After an attempt: the outcome stands, or the rest of the attempts follow.
abbrev pub after_attempt {ℓ} :
    {A : Type ℓ}
    → (ApiError → Bool)
    → Run (Option ApiError × A)
    → Option ApiError × A
    → Run (Option ApiError × A)
after_attempt retriable rest (none, a) = give (none, a)
after_attempt retriable rest (some e, a) = if retriable e then rest else give (some e, a)

abbrev pub is_conflict : ApiError → Bool
is_conflict conflict = true
is_conflict not_found = false
is_conflict already_exists = false
is_conflict other = false

-- retry.OnError: the body runs again on an error that the test accepts, as long as attempts are
-- left; the last outcome counts. The number is the one of attempts after the first.
unfoldable pub retry_on {ℓ} :
    {A : Type ℓ} → (ApiError → Bool) → ℕ → Run (Option ApiError × A) → Run (Option ApiError × A)
retry_on retriable zero body = body
retry_on retriable (suc n) body =
    let rest = retry_on retriable n body in body >>= after_attempt retriable rest

module _ (c : Cluster) where
  -- The update is left out where nothing changed.
  abbrev pub write_marked : Node × Bool → Run (Option ApiError × Unit {0})
  write_marked (marked, false) = give (none, tt)
  write_marked (marked, true) = do
    failure ← ask (node_update marked) (λ h. c.update_node h marked)
    give (failure, tt)

  abbrev pub mark_read : Result ApiError Node → Run (Option ApiError × Unit {0})
  mark_read (err e) = give (some e, tt)
  mark_read (ok node) = write_marked (mark_unschedulable node)

  unfoldable pub taint_attempt : String → Run (Option ApiError × Unit {0})
  taint_attempt name = do node ← ask (node_get name) (λ h. c.get_node h name); mark_read node

  -- retry.DefaultRetry allows five attempts.
  unfoldable pub taint_node_unschedulable : String → Run (Option ApiError × Unit {0})
  taint_node_unschedulable name = retry_on is_conflict 4 (taint_attempt name)

-- NodeNameFromEnv; an environment variable that is not set is empty.
unfoldable pub node_name_from_env : (String → String) → String
node_name_from_env getenv =
    let node_name = getenv "NODE_NAME" in
    if not (node_name == "") then node_name else getenv "FAST_RECOVERY_NODE_NAME"

-- CurrentNamespace, for the content of the namespace file if it can be read.
unfoldable pub current_namespace : Option String → String
current_namespace none = "default"
current_namespace (some data_text) =
    let namespace = trim_space data_text in if not (namespace == "") then namespace else "default"

pub current_namespace-not_empty : (file : Option String) → (current_namespace file == "") ≡ false
unfolding current_namespace
current_namespace-not_empty none = refl
current_namespace-not_empty (some data_text) = elim (Bool-cases (trim_space data_text == "")) [
  | inl gone ↦ rw gone refl
  | inr there ↦ rw there there
]
