-- ===== src/Pods.antt =====
-- internal/utils/podutils/pod.go: what the controller asks of a Pod. Whether a Pod is ready or
-- available is decided by Kubernetes (package podutil), which comes as a parameter.
pub mod Annotations
pub mod Order
pub mod Split
use gce_hackathon.Prelude.{
  ℕ, ℤ, Bool, true, false, not, ◌&&◌, Option, none, some, ◌≡◌, codes, or_empty, lookup, bytes_eq,
}
use gce_hackathon.Objects.{Pod, Phase, unset, pending, running, succeeded, failed, unknown}
use gce_hackathon.Objects.Keys.{annotation_pod_cordon}

-- IsPodReady and IsPodAvailable of k8s.io/kubernetes/pkg/api/v1/pod: the latter has the least
-- number of seconds and the time now, and is documented to hold of ready pods alone.
pub record PodUtil : Type 0 where
  pub is_pod_ready : Pod → Bool
  pub is_pod_available : Pod → ℤ → ℕ → Bool
  pub available_ready :
      (p : Pod) (seconds : ℤ) (now : ℕ)
      → is_pod_available p seconds now ≡ true
      → is_pod_ready p ≡ true

unfoldable pub is_pod_cordon : Pod → Bool
unfolding lookup bytes_eq
is_pod_cordon p = bytes_eq (or_empty (lookup annotation_pod_cordon p.annotations)) (codes "true")

abbrev phase_is_running : Phase → Bool
phase_is_running running = true
phase_is_running _ = false

abbrev phase_is_created : Phase → Bool
phase_is_created unset = false
phase_is_created _ = true

abbrev phase_is_failed : Phase → Bool
phase_is_failed failed = true
phase_is_failed _ = false

abbrev phase_is_succeeded : Phase → Bool
phase_is_succeeded succeeded = true
phase_is_succeeded _ = false

abbrev pub is_set {ℓ} : {A : Type ℓ} → Option A → Bool
is_set none = false
is_set (some a) = true

unfoldable pub is_running : Pod → Bool
is_running p = phase_is_running p.phase

unfoldable pub is_created : Pod → Bool
is_created p = phase_is_created p.phase

unfoldable pub is_failed : Pod → Bool
is_failed p = phase_is_failed p.phase

unfoldable pub is_succeeded : Pod → Bool
is_succeeded p = phase_is_succeeded p.phase

unfoldable pub is_terminating : Pod → Bool
is_terminating p = is_set p.deletion_timestamp

unfoldable pub is_running_and_ready : PodUtil → Pod → Bool
unfolding is_running
is_running_and_ready u p = is_running p && u.is_pod_ready p

unfoldable pub is_running_and_available : PodUtil → Pod → ℤ → ℕ → Bool
is_running_and_available u p seconds now = u.is_pod_available p seconds now

unfoldable pub is_healthy : PodUtil → Pod → Bool
unfolding is_running_and_ready is_terminating
is_healthy u p = is_running_and_ready u p && not (is_terminating p)
