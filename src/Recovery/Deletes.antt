-- ===== src/Recovery/Deletes.antt =====
-- pkg/recovery/recovery.go: every deletion of the pods of a job, by whatever handler.
use kcover.Shared.{
  ℕ, Bool, List, [], false, true, ◌∷◌, ◌≡◌, Option, Result, String, err, none, ok, refl, some, suc,
  zero, Bool-cases, inl, inr, keep, lookup, text_eq,
}
use kcover.Cluster.{
  Call, Cluster, pods_delete, ApiError, Node, cache_get, cache_set, clock_read, ledger_create,
  ledger_get, ledger_update, node_get, node_update, owner_get, pod_get, pods_list, ConfigMap,
  already_exists, conflict, not_found, other,
}
use kcover.Cluster.Calls.{◌>>=◌, give, ask, Keeps, Keeps->>=, Keeps-give, Keeps-if, Run}
use kcover.Recovery.Guard.{IsClaim, allow_restart-IsClaim}
use kcover.Recovery.Ledger.{
  job_restart_ledger_key, Permit, allow_restart, claim_restart, is_recent, new_ledger, no_permit,
  permit_if_written, refuse_at, restart_attempt, retry_again, update_with, use_ledger,
}
use kcover.Recovery.Controller.{
  restart_duration, ensure_node_unschedulable, allow_job_restart, is_success, permit_of, restart_if,
  restart_job,
}
use kcover.Kube.{
  after_attempt, is_conflict, mark_read, mark_unschedulable, retry_on, taint_attempt,
  taint_node_unschedulable, write_marked,
}

-- Every deletion among the calls follows at once on a claim of the same job.
abbrev pub IsGuarded : Cluster → List Call → Type 0
IsGuarded c [] = Unit
IsGuarded c (pods_delete namespace job ∷ rest) =
    IsClaim c restart_duration (job_restart_ledger_key c namespace job) rest × IsGuarded c rest
IsGuarded c (_ ∷ rest) = IsGuarded c rest

abbrev pub is_delete : Call → Bool
is_delete (pods_delete namespace job) = true
is_delete _ = false

after_attempt-Keeps :
    {A : Type 0} (P : List Call → Type 0) (retriable : ApiError → Bool)
    (rest : Run (Option ApiError × A))
    → Keeps P rest
    → (o : Option ApiError × A) → Keeps P (after_attempt retriable rest o)
after_attempt-Keeps P retriable rest k (none, a) = Keeps-give P (none, a)
after_attempt-Keeps P retriable rest k (some e, a) =
    Keeps-if P (retriable e) rest (give (some e, a)) k (Keeps-give P (some e, a))

retry_on-Keeps :
    {A : Type 0} (P : List Call → Type 0) (retriable : ApiError → Bool) (n : ℕ)
    (body : Run (Option ApiError × A))
    → Keeps P body
    → Keeps P (retry_on retriable n body)
unfolding retry_on
retry_on-Keeps P retriable zero body k = k
retry_on-Keeps P retriable (suc n) body k =
    Keeps->>= P body (after_attempt retriable (retry_on retriable n body)) k (
      after_attempt-Keeps P retriable (retry_on retriable n body)
        (retry_on-Keeps P retriable n body k))

module _ (c : Cluster) where
  cons-IsGuarded :
      (call : Call) (h : List Call)
      → is_delete call ≡ false
      → IsGuarded c h
      → IsGuarded c (call ∷ h)
  cons-IsGuarded (pods_delete ns job) h d p = absurd (cc)
  cons-IsGuarded (pod_get ns n) h d p = p
  cons-IsGuarded (pods_list n) h d p = p
  cons-IsGuarded (node_get n) h d p = p
  cons-IsGuarded (node_update n) h d p = p
  cons-IsGuarded (cache_get k) h d p = p
  cons-IsGuarded (cache_set k v) h d p = p
  cons-IsGuarded (owner_get o n) h d p = p
  cons-IsGuarded ledger_get h d p = p
  cons-IsGuarded (ledger_create m) h d p = p
  cons-IsGuarded (ledger_update m) h d p = p
  cons-IsGuarded clock_read h d p = p

  pub ask-Keeps :
      {A : Type 0} (call : Call) (answer : List Call → A)
      → is_delete call ≡ false
      → Keeps (IsGuarded c) (ask call answer)
  unfolding Keeps
  ask-Keeps call answer d before p = cons-IsGuarded call before d p

  pub give-Keeps : {A : Type 0} (a : A) → Keeps (IsGuarded c) (give a)
  give-Keeps a = Keeps-give (IsGuarded c) a

  write-Keeps : (w : Node × Bool) → Keeps (IsGuarded c) (write_marked c w)
  write-Keeps (marked, false) = give-Keeps (none, tt)
  write-Keeps (marked, true) =
      Keeps->>= (IsGuarded c) (ask (node_update marked) (λ h. c.update_node h marked))
        (λ e. give (e, tt)) (ask-Keeps (node_update marked) (λ h. c.update_node h marked) refl)
        (λ e. give-Keeps (e, tt))

  mark-Keeps : (r : Result ApiError Node) → Keeps (IsGuarded c) (mark_read c r)
  mark-Keeps (err e) = give-Keeps (some e, tt)
  mark-Keeps (ok node) = write-Keeps (mark_unschedulable node)

  pub ensure-Keeps : (name : String) → Keeps (IsGuarded c) (ensure_node_unschedulable c name)
  unfolding ensure_node_unschedulable taint_node_unschedulable taint_attempt
  ensure-Keeps name =
      Keeps->>= (IsGuarded c) (taint_node_unschedulable c name) _
        (retry_on-Keeps (IsGuarded c) is_conflict 4 (taint_attempt c name) (
          Keeps->>= (IsGuarded c) (ask (node_get name) (λ h. c.get_node h name)) (mark_read c)
            (ask-Keeps (node_get name) (λ h. c.get_node h name) refl) mark-Keeps))
        (λ o. give-Keeps (is_success o.0))

  refuse-Keeps : (o : Option ℕ) → Keeps (IsGuarded c) (refuse_at c o)
  refuse-Keeps none = give-Keeps (some other, no_permit)
  refuse-Keeps (some at) = give-Keeps (none, record { allowed = false; last_restart_at = at })

  permit-Keeps : (o : Option ApiError) → Keeps (IsGuarded c) (permit_if_written c o)
  permit-Keeps none = give-Keeps (none, record { allowed = true; last_restart_at = 0 })
  permit-Keeps (some e) = give-Keeps (some e, no_permit)

  claim-Keeps :
      (o : Option String) (m : ConfigMap) (key : String) (now : ℕ)
      → Keeps (IsGuarded c) (claim_restart c o m key now)
  claim-Keeps (some value) m key now = refuse-Keeps (c.parse_time value)
  claim-Keeps none m key now =
      Keeps->>= (IsGuarded c) (ask (ledger_update m) (λ h. c.update_ledger h m))
        (permit_if_written c) (ask-Keeps (ledger_update m) (λ h. c.update_ledger h m) refl)
        permit-Keeps

  use_ledger-Keeps :
      (r : Result ApiError ConfigMap) (key : String) (now ttl : ℕ)
      → Keeps (IsGuarded c) (use_ledger c r key now ttl)
  use_ledger-Keeps (err conflict) key now ttl = give-Keeps (some conflict, no_permit)
  use_ledger-Keeps (err already_exists) key now ttl = give-Keeps (some already_exists, no_permit)
  use_ledger-Keeps (err other) key now ttl = give-Keeps (some other, no_permit)
  use_ledger-Keeps (err not_found) key now ttl =
      let m = new_ledger c key now in
      Keeps->>= (IsGuarded c) (ask (ledger_create m) (λ h. c.create_ledger h m))
        (permit_if_written c) (ask-Keeps (ledger_create m) (λ h. c.create_ledger h m) refl)
        permit-Keeps
  use_ledger-Keeps (ok found) key now ttl =
      let recent = keep (is_recent c now ttl) found.data_map in
      claim-Keeps (lookup key recent) (update_with c found recent key now) key now

  attempt-Keeps : (key : String) (now ttl : ℕ) → Keeps (IsGuarded c) (restart_attempt c key now ttl)
  unfolding restart_attempt
  attempt-Keeps key now ttl =
      Keeps->>= (IsGuarded c) (ask ledger_get (λ h. c.get_ledger h))
        (λ r. use_ledger c r key now ttl) (ask-Keeps ledger_get (λ h. c.get_ledger h) refl)
        (λ r. use_ledger-Keeps r key now ttl)

  allow-Keeps :
      (namespace job : String) (ttl : ℕ) → Keeps (IsGuarded c) (allow_restart c namespace job ttl)
  unfolding allow_restart
  allow-Keeps namespace job ttl =
      Keeps->>= (IsGuarded c) (ask clock_read (λ h. c.clock h)) _
        (ask-Keeps clock_read (λ h. c.clock h) refl)
        (λ now.
          retry_on-Keeps (IsGuarded c) retry_again 4
            (restart_attempt c (job_restart_ledger_key c namespace job) now ttl)
            (attempt-Keeps (job_restart_ledger_key c namespace job) now ttl))

  -- The deletion after the ledger's answer.
  delete-IsGuarded :
      (namespace job : String) (h : List Call) (o : Option ApiError × Permit)
      → (o.0 ≡ none
          → o.1.allowed ≡ true
          → IsClaim c restart_duration (job_restart_ledger_key c namespace job) h)
      → IsGuarded c h
      → IsGuarded c ((permit_of c o >>= λ permit. restart_if c permit namespace job) h).0
  unfolding restart_job
  delete-IsGuarded namespace job h (some e, permit) claim g = g
  delete-IsGuarded namespace job h (none, permit) claim g = elim (Bool-cases permit.allowed) [
    | inl granted ↦ rw granted (claim refl granted, g)
    | inr refused ↦ rw refused g
  ]

  pub restart-Keeps :
      (namespace job : String)
      → Keeps
          (IsGuarded c)
          (allow_job_restart c namespace job >>= λ permit. restart_if c permit namespace job)
  unfolding allow_job_restart Keeps
  restart-Keeps namespace job before p =
      let run = allow_restart c namespace job restart_duration before in
      delete-IsGuarded namespace job run.0 run.1
        (λ n a. allow_restart-IsClaim c namespace job restart_duration before n a)
        (allow-Keeps namespace job restart_duration before p)
