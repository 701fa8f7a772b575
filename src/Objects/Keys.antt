-- ===== src/Objects/Keys.antt =====
-- api/v1beta1/well_known.go: the keys of labels and annotations.
use gce_hackathon.Prelude.{Bytes, codes}

abbrev pub annotation_pod_cordon : Bytes
annotation_pod_cordon = codes "nodeset.slinky.slurm.net/pod-cordon"

abbrev pub annotation_pod_deletion_cost : Bytes
annotation_pod_deletion_cost = codes "nodeset.slinky.slurm.net/pod-deletion-cost"

abbrev pub annotation_pod_deadline : Bytes
annotation_pod_deadline = codes "nodeset.slinky.slurm.net/pod-deadline"

abbrev pub annotation_node_cordon_reason : Bytes
annotation_node_cordon_reason = codes "nodeset.slinky.slurm.net/node-cordon-reason"

abbrev pub annotation_node_topology_spec : Bytes
annotation_node_topology_spec = codes "topology.slinky.slurm.net/spec"

abbrev pub annotation_node_hostname_override : Bytes
annotation_node_hostname_override = codes "nodeset.slinky.slurm.net/hostname-override"

abbrev pub label_pod_name : Bytes
label_pod_name = codes "nodeset.slinky.slurm.net/pod-name"

abbrev pub label_pod_index : Bytes
label_pod_index = codes "nodeset.slinky.slurm.net/pod-index"

abbrev pub label_pod_hostname : Bytes
label_pod_hostname = codes "nodeset.slinky.slurm.net/pod-hostname"

abbrev pub label_scaling_mode : Bytes
label_scaling_mode = codes "nodeset.slinky.slurm.net/scaling-mode"

abbrev pub label_pod_protect : Bytes
label_pod_protect = codes "nodeset.slinky.slurm.net/pod-protect"

-- history.ControllerRevisionHashLabel of Kubernetes.
abbrev pub label_revision_hash : Bytes
label_revision_hash = codes "controller.kubernetes.io/hash"
