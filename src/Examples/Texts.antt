-- ===== src/Examples/Texts.antt =====
-- Examples of the configuration files (internal/utils/config/config.go) and of the conditions of
-- Pods (internal/controller/nodeset/nodeset_sync_status.go).
use gce_hackathon.Prelude.{
  ◌≡◌, refl, true, Option, none, some, List, [], ◌∷◌, ◌++◌, codes, bytes_eq, if◌then◌else◌,
}
use gce_hackathon.Objects.{PodCondition}
use gce_hackathon.Api.{Error, ok, Request, patch_pod_status, World}
use gce_hackathon.Conf.{property, raw, build}
use gce_hackathon.Conf.ReadBack.{read_back, added, read_back-build}
use gce_hackathon.SlurmControl.Count.{empty_status}
use gce_hackathon.NodeSets.Conditions.{with_conditions, update_node_set_pod_conditions}
use gce_hackathon.NodeSets.Conditions.Missing.{conditions-stop}
use gce_hackathon.Examples.{healthy_pod, sick_pod, host, idle_node, world_of, missing, cordoned_pod}

read_back-build_example :
    read_back (
      build record {
        separator = codes "=";
        newline = true;
        properties =
            raw (codes "### GENERAL ###")
            ∷ property (codes "ClusterName") (codes "slurm_a=b")
            ∷ property (codes "SlurmUser") (codes "slurm")
            ∷ [];
      })
    ≡ added (
        raw (codes "### GENERAL ###")
        ∷ property (codes "ClusterName") (codes "slurm_a=b")
        ∷ property (codes "SlurmUser") (codes "slurm")
        ∷ [])
read_back-build_example =
    read_back-build true
      (raw (codes "### GENERAL ###")
        ∷ property (codes "ClusterName") (codes "slurm_a=b")
        ∷ property (codes "SlurmUser") (codes "slurm")
        ∷ [])
      ((refl, refl), ((refl, refl, refl), ((refl, refl, refl), tt)))

-- The second Pod is gone.
abbrev gone : Request → Option Error
gone (patch_pod_status p q) = if bytes_eq p.name (codes "gpu-1") then some missing else none
gone q = none

abbrev half_world : World
half_world = record (world_of healthy_pod host idle_node) { write = λ t q. gone q }

abbrev append_condition : List PodCondition → PodCondition → List PodCondition
append_condition cs c = cs ++ (c ∷ [])

conditions-stop_example :
    ((update_node_set_pod_conditions half_world append_condition empty_status
        (healthy_pod ∷ sick_pod ∷ cordoned_pod ∷ [])
        []).0
      ≡ ok tt)
    × ((update_node_set_pod_conditions half_world append_condition empty_status
          (healthy_pod ∷ sick_pod ∷ cordoned_pod ∷ [])
          []).1
        ≡ (update_node_set_pod_conditions half_world append_condition empty_status
            (healthy_pod ∷ sick_pod ∷ [])
            []).1)
unfolding bytes_eq with_conditions
conditions-stop_example =
    conditions-stop half_world append_condition empty_status (healthy_pod ∷ []) (cordoned_pod ∷ [])
      sick_pod (λ t. missing) ((λ t. refl), tt) (λ t. (refl, refl)) []
