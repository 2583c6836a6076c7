-- ===== src/Recovery/Ledger.antt =====
-- pkg/recovery/job_restart_ledger.go: the time of the last allowed restart of each job, in a
-- ConfigMap that all controllers share.
use kcover.Shared.{
  ℕ, Bool, List, Option, Result, String, [], err, false, insert, keep, lookup, ltb, none, ok, some,
  true, ◌+◌, ◌∷◌, text_eq, codes, ◌++◌,
}
use kcover.Cluster.{
  ApiError, Cluster, ConfigMap, already_exists, clock_read, conflict, ledger_create, ledger_get,
  ledger_update, not_found, other,
}
use kcover.Cluster.Calls.{◌>>=◌, give, ask, Run}
use kcover.Kube.{retry_on}

-- Whether a restart is allowed, and the time of the last one, 0 for the zero time.
pub record Permit : Type 0 where
  pub allowed : Bool
  pub last_restart_at : ℕ

abbrev pub no_permit : Permit
no_permit = record { allowed = false; last_restart_at = 0 }

abbrev pub retry_again : ApiError → Bool
retry_again conflict = true
retry_again already_exists = true
retry_again not_found = false
retry_again other = false

module _ (c : Cluster) where
  -- `namespace + "\x00" + jobName` under SHA-256, in hexadecimal digits; names are ASCII.
  unfoldable pub job_restart_ledger_key : String → String → String
  job_restart_ledger_key namespace job = c.hash_key (codes namespace ++ (0 ∷ codes job))

  -- An entry that blocks a restart: its time can be read, and the window has not passed.
  unfoldable pub is_recent : ℕ → ℕ → String × String → Bool
  is_recent now ttl (key, value) = elim (c.parse_time value) [
    | none ↦ false
    | some restart_at ↦ ltb now (restart_at + ttl)
  ]

  abbrev pub permit_if_written : Option ApiError → Run (Option ApiError × Permit)
  permit_if_written none = give (none, record { allowed = true; last_restart_at = 0 })
  permit_if_written (some e) = give (some e, no_permit)

  abbrev pub new_ledger : String → ℕ → ConfigMap
  new_ledger key now = record { data_map = (key, c.format_time now) ∷ []; map_version = "" }

  abbrev pub update_with : ConfigMap → List (String × String) → String → ℕ → ConfigMap
  update_with found recent key now = record found {
    data_map = insert key (c.format_time now) recent;
  }

  -- The time of the entry that stands in the way.
  abbrev pub refuse_at : Option ℕ → Run (Option ApiError × Permit)
  refuse_at none = give (some other, no_permit)
  refuse_at (some at) = give (none, record { allowed = false; last_restart_at = at })

  -- What the body does with the entries that are left after the old ones are deleted.
  abbrev pub claim_restart : Option String → ConfigMap → String → ℕ → Run (Option ApiError × Permit)
  claim_restart (some value) found key now = refuse_at (c.parse_time value)
  claim_restart none found key now = do
    failure ← ask (ledger_update found) (λ h. c.update_ledger h found)
    permit_if_written failure

  abbrev pub use_ledger :
      Result ApiError ConfigMap → String → ℕ → ℕ → Run (Option ApiError × Permit)
  use_ledger (err not_found) key now ttl = do
    failure ← ask (ledger_create (new_ledger key now)) (λ h. c.create_ledger h (new_ledger key now))
    permit_if_written failure
  use_ledger (err conflict) key now ttl = give (some conflict, no_permit)
  use_ledger (err already_exists) key now ttl = give (some already_exists, no_permit)
  use_ledger (err other) key now ttl = give (some other, no_permit)
  use_ledger (ok found) key now ttl =
      let recent = keep (is_recent now ttl) found.data_map in
      claim_restart (lookup key recent) (update_with found recent key now) key now

  unfoldable pub restart_attempt : String → ℕ → ℕ → Run (Option ApiError × Permit)
  unfolding is_recent
  restart_attempt key now ttl = do
    found ← ask ledger_get (λ h. c.get_ledger h)
    use_ledger found key now ttl

  unfoldable pub allow_restart : String → String → ℕ → Run (Option ApiError × Permit)
  unfolding job_restart_ledger_key
  allow_restart namespace job ttl = do
    now ← ask clock_read (λ h. c.clock h)
    retry_on retry_again 4 (restart_attempt (job_restart_ledger_key namespace job) now ttl)
