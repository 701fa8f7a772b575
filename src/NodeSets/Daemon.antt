-- ===== src/NodeSets/Daemon.antt =====
-- internal/controller/nodeset/nodeset_sync.go, podsShouldBeOnNode: the Pods of a NodeSet of the mode
-- DaemonSet on one Kubernetes node. Events and logging are left out.
pub mod Single
pub mod Scaling
use gce_hackathon.Prelude.{
  ℕ, ℤ, Bool, true, false, not, ◌&&◌, Option, none, some, List, [], ◌∷◌, ◌++◌, keep, drop, Bytes,
  bytes_eq, lookup, or_empty, if◌then◌else◌,
}
use gce_hackathon.Objects.{Pod, Node}
use gce_hackathon.Objects.Keys.{annotation_node_hostname_override, label_pod_hostname}
use gce_hackathon.Names.{get_daemon_set_pod_hostname}
use gce_hackathon.Pods.{PodUtil, is_terminating, is_failed, is_succeeded}
use gce_hackathon.Pods.Split.{Sorter}
use gce_hackathon.Pods.Order.{active_less}

-- The backoff of client-go: its state, whether the operations on a key are to wait, for how long,
-- and that one took place.
pub record Backoff : Type 1 where
  pub State : Type 0
  pub is_in_backoff : State → Bytes → Bool
  pub get : State → Bytes → ℤ
  pub next : State → Bytes → State

-- What becomes of the Pods of a node: those that run, those to delete, and the failed ones that
-- are left for later, each with the delay after which the NodeSet is enqueued again.
pub record Sifted (backoff : Backoff) : Type 0 where
  pub running : List Pod
  pub to_delete : List Pod
  pub postponed : List (Pod × ℤ)
  pub state : backoff.State

unfoldable pub expected_hostname : Node → Bytes
unfolding lookup get_daemon_set_pod_hostname
expected_hostname node =
    get_daemon_set_pod_hostname node.name
      (or_empty (lookup annotation_node_hostname_override node.annotations))

unfoldable pub has_hostname : Node → Pod → Bool
unfolding expected_hostname
has_hostname node p =
    bytes_eq (or_empty (lookup label_pod_hostname p.labels)) (expected_hostname node)

-- `key` is the key of the NodeSet and the node.
module _ (backoff : Backoff) (key : Bytes) where
  abbrev pub after_failure : Pod → backoff.State → backoff.State
  after_failure p b =
      if (not (is_terminating p) && is_failed p) && not (backoff.is_in_backoff b key)
      then backoff.next b key
      else b

  -- The cases of the loop for a Pod, in the order of the code: it is terminating, it failed (and is
  -- in backoff), it succeeded, it has the hostname expected.
  abbrev pub place : Bool → Bool → Bool → Bool → Bool → Pod → ℤ → Sifted backoff → Sifted backoff
  place terminating failed waits succeeded fits p delay rest =
      if terminating
      then rest
      else if failed
      then (if waits
          then record rest { postponed = (p, delay) ∷ rest.postponed }
          else record rest { to_delete = p ∷ rest.to_delete })
      else if succeeded
      then record rest { to_delete = p ∷ rest.to_delete }
      else if not fits
      then record rest { to_delete = p ∷ rest.to_delete }
      else record rest { running = p ∷ rest.running }

  -- The loop over the Pods of a node that goes on to run them.
  unfoldable pub sift : Node → List Pod → backoff.State → Sifted backoff
  unfolding has_hostname
  sift node [] b = record { running = []; to_delete = []; postponed = []; state = b }
  sift node (p ∷ ps) b =
      let rest = sift node ps (after_failure p b) in
      place (is_terminating p) (is_failed p) (backoff.is_in_backoff b key) (is_succeeded p)
        (has_hostname node p) p (backoff.get b key) rest

  abbrev pod_list : Option (List Pod) → List Pod
  pod_list none = []
  pod_list (some ps) = ps

  abbrev none_known : Option (List Pod) → Bool
  none_known none = true
  none_known (some ps) = false

  -- podsShouldBeOnNode: whether the node needs a Pod, and what becomes of the Pods it has. The first
  -- two arguments are what NodeShouldRunDaemonPod says, the fourth is the entry of the node in
  -- the map of Pods by nodes. All running Pods but the first in the order of ActivePods are deleted.
  module _ (u : PodUtil) (parse_time : Bytes → Option ℕ) (sorter : Sorter) where
    unfoldable pub all_but_first : List Pod → List Pod
    all_but_first running = drop 1 (sorter.sort (active_less u parse_time) running)

    unfoldable pub pods_should_be_on_node :
        Bool → Bool → Node → Option (List Pod) → backoff.State → Bool × Sifted backoff
    unfolding sift all_but_first
    pods_should_be_on_node should_run should_continue_running node daemon_pods b =
        let sifted = sift node (pod_list daemon_pods) b in
        if should_run && none_known daemon_pods
        then (true, record { running = []; to_delete = []; postponed = []; state = b })
        else if should_continue_running
        then (false, record sifted { to_delete = sifted.to_delete ++ all_but_first sifted.running })
        else (
          false,
          record {
            running = [];
            to_delete = keep (λ p. not (is_terminating p)) (pod_list daemon_pods);
            postponed = [];
            state = b;
          },
        )
