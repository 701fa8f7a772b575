-- ===== src/Webhooks/Binding.antt =====
-- internal/webhook/pod_binding_webhook.go: the webhook that gives a Pod the topology of its node
-- when it is bound. The Binding is that of the Pod with its namespace and name to its target.
use gce_hackathon.Prelude.{Bool, Bytes, codes, bytes_eq, insert, lookup, or_empty, if◌then◌else◌}
use gce_hackathon.Objects.{Pod, Node}
use gce_hackathon.Objects.Keys.{annotation_node_topology_spec}
use gce_hackathon.Api.{
  Result, ok, err, patch_pod, World, M, ◌>>=◌, return, throw, try_run, send, fetch_pod, fetch_node,
}
use gce_hackathon.Claims.Store.{wrap}

pub record Binding : Type 0 where
  pub namespace : Bytes
  pub name : Bytes
  pub target : Bytes

abbrev pub is_worker : Pod → Bool
is_worker p =
    bytes_eq (or_empty (lookup (codes "app.kubernetes.io/name") p.labels)) (codes "slurmd")

module _ (w : World) where
  unfoldable pub set_topology : Pod → Result Node → M (Unit {0})
  set_topology p (ok node) = send w (
      patch_pod
        (record p {
          annotations =
              insert annotation_node_topology_spec
                (or_empty (lookup annotation_node_topology_spec node.annotations)) p.annotations;
        })
        p)
  set_topology p (err e) = if e.not_found then return tt else throw e

  unfoldable pub set_topology_of : Binding → Result Pod → M (Unit {0})
  unfolding set_topology
  set_topology_of b (ok p) =
      if is_worker p then (try_run (fetch_node w b.target) >>= set_topology p) else return tt
  set_topology_of b (err e) = throw (wrap (codes "could not fetch pod for binding: ") e)

  -- Default.
  unfoldable pub default_binding : Binding → M (Unit {0})
  unfolding set_topology_of
  default_binding b = try_run (fetch_pod w b.namespace b.name) >>= set_topology_of b
