-- ===== src/Recovery/Jobs.antt =====
-- pkg/recovery/job.go: the labels of the job that owns a pod, from a cache or from the API.
use kcover.Shared.{
  List, Option, Result, String, [], err, if◌then◌else◌, none, ok, some, ◌==◌, ◌∷◌, text_eq,
}
use kcover.Cluster.{ApiError, Cluster, Owner, Pod, cache_get, cache_set, other, owner_get}
use kcover.Cluster.Calls.{◌>>=◌, ◌>>◌, give, ask, Run}

-- The path segment of the kinds of jobs; empty for any other kind.
unfoldable pub resource_of : String → String
resource_of kind =
    if kind == "PyTorchJob" then "pytorchjobs" else if kind == "TFJob" then "tfjobs" else ""

module _ (c : Cluster) where
  abbrev pub keep_labels :
      Owner
      → Result ApiError (List (String × String))
      → Run (Result ApiError (List (String × String)))
  keep_labels owner (err e) = give (err e)
  keep_labels owner (ok labels) = do ask (cache_set owner.uid labels) (λ h. tt); give (ok labels)

  abbrev pub labels_of_owner :
      Pod → Owner → Option (List (String × String)) → Run (Result ApiError (List (String × String)))
  labels_of_owner pod owner (some labels) = give (ok labels)
  labels_of_owner pod owner none = do
    found ← ask (owner_get owner pod.namespace) (λ h. c.get_owner_labels h owner pod.namespace)
    keep_labels owner found

  -- Only the first owner counts.
  abbrev pub labels_of_owners : Pod → List Owner → Run (Result ApiError (List (String × String)))
  labels_of_owners pod [] = give (err other)
  labels_of_owners pod (owner ∷ _) = do
    cached ← ask (cache_get owner.uid) (λ h. c.cached_labels h owner.uid)
    labels_of_owner pod owner cached

  unfoldable pub get_pod_related_job_labels : Pod → Run (Result ApiError (List (String × String)))
  get_pod_related_job_labels pod = labels_of_owners pod pod.owners
