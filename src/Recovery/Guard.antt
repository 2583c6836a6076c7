-- ===== src/Recovery/Guard.antt =====
-- pkg/recovery: when the pods of a job are deleted.
use kcover.Shared.{
  ℕ, Bool, Bool-cases, List, Option, Result, String, err, false, inl, inr, keep, lookup, none, ok,
  refl, some, suc, true, zero, ◌∷◌, ◌≡◌, text_eq, [], arith, eq_refl, insert, lookup-insert,
}
use kcover.Cluster.{
  Call, ApiError, Cluster, ConfigMap, ledger_create, ledger_get, ledger_update, not_found,
  already_exists, clock_read, conflict, other,
}
use kcover.Cluster.Calls.{Run}
use kcover.Recovery.Ledger.{
  Permit, claim_restart, is_recent, restart_attempt, update_with, use_ledger, allow_restart,
  job_restart_ledger_key, new_ledger, permit_if_written, refuse_at, retry_again,
}
use kcover.Kube.{after_attempt, retry_on}

-- What holds of every attempt holds of the last one.
after_attempt-holds :
    {A : Type 0} (P : List Call → Option ApiError × A → Type 0) (retriable : ApiError → Bool)
    (rest : Run (Option ApiError × A))
    → ((h : List Call) → P (rest h).0 (rest h).1)
    → (h : List Call) (o : Option ApiError × A) → P h o
    → P (after_attempt retriable rest o h).0 (after_attempt retriable rest o h).1
after_attempt-holds P retriable rest each h (none, a) p = p
after_attempt-holds P retriable rest each h (some e, a) p = elim (Bool-cases (retriable e)) [
  | inl again ↦ rw again (each h)
  | inr last ↦ rw last p
]

-- What holds of every attempt holds of the last one.
retry_on-holds :
    {A : Type 0} (P : List Call → Option ApiError × A → Type 0) (retriable : ApiError → Bool)
    (n : ℕ) (body : Run (Option ApiError × A))
    → ((h : List Call) → P (body h).0 (body h).1)
    → (h : List Call) → P (retry_on retriable n body h).0 (retry_on retriable n body h).1
unfolding retry_on
retry_on-holds P retriable zero body each h = each h
retry_on-holds P retriable (suc n) body each h =
    after_attempt-holds P retriable (retry_on retriable n body)
      (retry_on-holds P retriable n body each) (body h).0 (body h).1 (each h)

-- The last two calls read the ledger, which had no recent entry of the key, and wrote the time of
-- this restart into it, which the API accepted.
abbrev pub IsClaim : Cluster → ℕ → String → List Call → Type 0
IsClaim c ttl key (ledger_update m ∷ ledger_get ∷ rest) =
    (found : ConfigMap) × (now : ℕ) × (c.get_ledger rest ≡ ok found)
    × (lookup key (keep (is_recent c now ttl) found.data_map) ≡ none)
    × (lookup key m.data_map ≡ some (c.format_time now))
    × (c.update_ledger (ledger_get ∷ rest) m ≡ none)
IsClaim c ttl key (ledger_create m ∷ ledger_get ∷ rest) =
    (now : ℕ) × (c.get_ledger rest ≡ err not_found)
    × (lookup key m.data_map ≡ some (c.format_time now))
    × (c.create_ledger (ledger_get ∷ rest) m ≡ none)
IsClaim c ttl key _ = false ≡ true

module _ (c : Cluster) where
  -- An attempt that allows a restart has claimed it.
  Claims : ℕ → String → List Call → Option ApiError × Permit → Type 0
  Claims ttl key h (e, permit) = e ≡ none → permit.allowed ≡ true → IsClaim c ttl key h

  refuse-Claims :
      (ttl : ℕ) (key : String) (o : Option ℕ) (h : List Call)
      → Claims ttl key (refuse_at c o h).0 (refuse_at c o h).1
  unfolding Claims
  refuse-Claims ttl key none h e a = cc
  refuse-Claims ttl key (some at) h e a = cc

  permit-Claims :
      (ttl : ℕ) (key : String) (h : List Call) (o : Option ApiError)
      → (o ≡ none → IsClaim c ttl key h)
      → Claims ttl key (permit_if_written c o h).0 (permit_if_written c o h).1
  unfolding Claims
  permit-Claims ttl key h none claim e a = claim refl
  permit-Claims ttl key h (some x) claim e a = cc

  stored_time :
      (key value : String) (m : List (String × String))
      → lookup key (insert key value m) ≡ some value
  stored_time key value m = ground (arith, lookup-insert key value m key, eq_refl key)

  update-Claims :
      (key : String) (now ttl : ℕ) (h : List Call) (found : ConfigMap) (o : Option String)
      → c.get_ledger h ≡ ok found
      → lookup key (keep (is_recent c now ttl) found.data_map) ≡ o
      → (let next = update_with c found (keep (is_recent c now ttl) found.data_map) key now in
          let run = claim_restart c o next key now (ledger_get ∷ h) in Claims ttl key run.0 run.1)
  update-Claims key now ttl h found (some value) e l =
      refuse-Claims ttl key (c.parse_time value) (ledger_get ∷ h)
  update-Claims key now ttl h found none e l =
      let recent = keep (is_recent c now ttl) found.data_map in
      let next = update_with c found recent key now in
      permit-Claims ttl key (ledger_update next ∷ ledger_get ∷ h)
        (c.update_ledger (ledger_get ∷ h) next)
        (λ w. (found, now, e, l, stored_time key (c.format_time now) recent, w))

  use_ledger-Claims :
      (key : String) (now ttl : ℕ) (h : List Call) (answer : Result ApiError ConfigMap)
      → c.get_ledger h ≡ answer
      → (let run = use_ledger c answer key now ttl (ledger_get ∷ h) in Claims ttl key run.0 run.1)
  unfolding insert
  use_ledger-Claims key now ttl h (ok found) e =
      update-Claims key now ttl h found (lookup key (keep (is_recent c now ttl) found.data_map)) e
        refl
  use_ledger-Claims key now ttl h (err not_found) e =
      let m = new_ledger c key now in
      permit-Claims ttl key (ledger_create m ∷ ledger_get ∷ h) (c.create_ledger (ledger_get ∷ h) m)
        (λ w. (now, e, stored_time key (c.format_time now) [], w))
  use_ledger-Claims key now ttl h (err conflict) e = unfold Claims in (λ n a. cc)
  use_ledger-Claims key now ttl h (err already_exists) e = unfold Claims in (λ n a. cc)
  use_ledger-Claims key now ttl h (err other) e = unfold Claims in (λ n a. cc)

  attempt-Claims :
      (key : String) (now ttl : ℕ) (h : List Call)
      → Claims ttl key (restart_attempt c key now ttl h).0 (restart_attempt c key now ttl h).1
  unfolding restart_attempt
  attempt-Claims key now ttl h = use_ledger-Claims key now ttl h (c.get_ledger h) refl

  -- A restart that allowRestart allows was claimed in the ledger by its last two calls: the ledger that
  -- it read had no entry of the job within the window, and the API accepted the write of the new one.
  pub allow_restart-IsClaim :
      (namespace job : String) (ttl : ℕ) (h : List Call)
      → (allow_restart c namespace job ttl h).1.0 ≡ none
      → (allow_restart c namespace job ttl h).1.1.allowed ≡ true
      → IsClaim c ttl
          (job_restart_ledger_key c namespace job)
          (allow_restart c namespace job ttl h).0
  unfolding allow_restart Claims
  allow_restart-IsClaim namespace job ttl h =
      let key = job_restart_ledger_key c namespace job in
      let now = c.clock h in
      retry_on-holds (Claims ttl key) retry_again 4 (restart_attempt c key now ttl)
        (attempt-Claims key now ttl) (clock_read ∷ h)
