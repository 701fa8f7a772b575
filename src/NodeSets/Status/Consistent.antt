-- ===== src/NodeSets/Status/Consistent.antt =====
-- How the counters of calculateReplicaStatus (internal/controller/nodeset/nodeset_sync_status.go)
-- fit together.
use gce_hackathon.Prelude.{ℕ, ◌≤◌}
use gce_hackathon.NodeSets.Status.{ReplicaStatus}

abbrev pub Nested : ReplicaStatus → ℕ → Type 0
Nested r n =
    (r.available ≤ r.ready)
    × (r.ready ≤ r.replicas)
    × (r.replicas ≤ n)
    × (r.current ≤ r.replicas)
    × (r.updated ≤ r.replicas)
