-- ===== src/Examples/Handlers.antt =====
-- Examples of the events of Pods (internal/controller/nodeset/eventhandler).
use gce_hackathon.Prelude.{◌≡◌, refl, true, false, none, some, [], ◌∷◌, codes, bytes_eq}
use gce_hackathon.Objects.{OwnerRef}
use gce_hackathon.Pods.{is_terminating}
use gce_hackathon.Events.{
  Observed, deletion_observed, enqueue, Cache, resolve_controller_ref, resolve, delete_pod_event,
  update_pod_event,
}
use gce_hackathon.Events.Told.{Tells, update_pod_event-Tells}
use gce_hackathon.Examples.{readiness, healthy_pod, node_set}

abbrev owner_ref : OwnerRef
owner_ref = record {
  api_version = codes "slinky.slurm.net/v1beta1";
  kind = codes "NodeSet";
  name = codes "gpu";
  uid = codes "n0";
  controller = some true;
}

abbrev cache : Cache
cache = record {
  get_node_set = λ namespace name. some node_set;
  get_pod = λ namespace name. none;
  list_node_sets = λ namespace. some (node_set ∷ []);
  list_pods_on = λ name. none;
  is_empty_selector = λ labels. false;
  selects = λ selector labels. true;
  equal_labels = λ a b. true;
  equal_refs = λ a b. true;
  equal_metadata = λ a b. true;
}

abbrev before : Observed
before = record { pod = healthy_pod; resource_version = codes "1"; controller_ref = some owner_ref }

-- The Pod is being deleted.
abbrev after : Observed
after = record {
  pod = record healthy_pod { deletion_timestamp = some 9 };
  resource_version = codes "2";
  controller_ref = some owner_ref;
}

deleted_told :
    update_pod_event readiness cache before after
    ≡ deletion_observed node_set after.pod ∷ enqueue node_set ∷ []
unfolding update_pod_event delete_pod_event resolve resolve_controller_ref bytes_eq is_terminating
deleted_told = refl

update_pod_event-Tells_example : Tells before after (update_pod_event readiness cache before after)
update_pod_event-Tells_example = update_pod_event-Tells readiness cache before after
