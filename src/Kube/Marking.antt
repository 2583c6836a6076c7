-- ===== src/Kube/Marking.antt =====
-- pkg/kube/kube.go: what TaintNodeUnschedulable makes of a node, and what it sends.
use kcover.Shared.{
  Bool, Bool-cases, [], any, false, inl, inr, not, true, ◌&&◌, ◌++◌, ◌∷◌, ◌≡◌, ◌⊎◌, any-append,
  arith, refl,
}
use kcover.Cluster.{Node}
use kcover.Kube.{is_unschedulable_taint, mark_unschedulable, unschedulable_taint}

-- The node takes no new pods: the field is set and the taint is there.
abbrev pub is_marked : Node → Bool
is_marked node = node.unschedulable && any is_unschedulable_taint node.taints

added :
    (node : Node)
    → any is_unschedulable_taint node.taints ≡ false
    → any is_unschedulable_taint (node.taints ++ (unschedulable_taint ∷ [])) ≡ true
added node missing =
    rw (any-append is_unschedulable_taint node.taints (unschedulable_taint ∷ [])) (ground arith)

-- The node that is sent is marked, keeps its version and all taints in front, and is sent exactly if
-- the node that was read was not marked; marking it again changes nothing.
pub mark_unschedulable_lem :
    (node : Node)
    → (is_marked (mark_unschedulable node).0 ≡ true)
      × ((mark_unschedulable node).1 ≡ not (is_marked node))
      × ((mark_unschedulable node).0.resource_version ≡ node.resource_version)
      × (((mark_unschedulable node).0.taints ≡ node.taints)
          ⊎ ((mark_unschedulable node).0.taints ≡ node.taints ++ (unschedulable_taint ∷ [])))
      × (mark_unschedulable (mark_unschedulable node).0 ≡ ((mark_unschedulable node).0, false))
unfolding mark_unschedulable
mark_unschedulable_lem node = elim (Bool-cases (any is_unschedulable_taint node.taints)) [
  | inl there ↦ rw there (there, ground arith, refl, inl refl, rw there refl)
  | inr missing ↦
      rw missing (added node missing, ground arith, refl, inr refl, rw (added node missing) refl)
]
