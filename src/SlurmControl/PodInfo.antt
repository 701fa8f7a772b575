-- ===== src/SlurmControl/PodInfo.antt =====
-- What the comments of Slurm nodes say of their Pods (internal/utils/podinfo/podinfo.go) and how
-- it is written and read (UpdateNodeWithPodInfo and GetDefunctNodesForNodeSet of
-- internal/controller/nodeset/slurmcontrol/slurmcontrol.go).
use gce_hackathon.Prelude.{
  Bool, not, ◌&&◌, ◌||◌, Option, none, some, List, [], ◌∷◌, Bytes, bytes_eq, or_empty,
  if◌then◌else◌,
}
use gce_hackathon.Objects.{Pod, NodeSet}
use gce_hackathon.Slurm.{SlurmNode, down, not_responding, set_idle}
use gce_hackathon.Api.{World, M, ◌>>=◌, ◌>>◌, return, fetch_slurm_nodes, client_known}
use gce_hackathon.SlurmControl.{
  no_update, has_state, on_slurm_node, update_tolerated, slurm_name, is_empty,
}

pub record PodInfo : Type 0 where
  pub namespace : Bytes
  pub pod_name : Bytes
  pub node : Bytes
  pub node_set_name : Bytes
  pub node_set_uid : Bytes

-- Package encoding/json on PodInfo: Marshal, and Unmarshal into an empty PodInfo, which says
-- whether the text could be read and what the PodInfo is then.
pub record Json : Type 0 where
  pub marshal : PodInfo → Bytes
  pub unmarshal : Bytes → Bool × PodInfo

-- DefunctNode.
pub record DefunctNode : Type 0 where
  pub name : Bytes
  pub pod_info : PodInfo

abbrev pub pod_info_of : NodeSet → Pod → PodInfo
pod_info_of s p = record {
  namespace = p.namespace;
  pod_name = p.name;
  node = p.node_name;
  node_set_name = s.name;
  node_set_uid = s.uid;
}

module _ (json : Json) where
  -- Equal compares the texts.
  unfoldable pub equal : PodInfo → PodInfo → Bool
  equal a b = bytes_eq (json.marshal a) (json.marshal b)

  -- ToString.
  unfoldable pub to_string : PodInfo → Bytes
  to_string info = json.marshal info

  -- ParseIntoPodInfo, into an empty PodInfo.
  unfoldable pub parse_into_pod_info : Option Bytes → Bool × PodInfo
  parse_into_pod_info comment = json.unmarshal (or_empty comment)

  -- The guards of the loop of GetDefunctNodesForNodeSet, for a node of the list.
  unfoldable pub is_defunct : NodeSet → SlurmNode → Bool
  unfolding parse_into_pod_info bytes_eq
  is_defunct s node =
      let (readable, info) = parse_into_pod_info node.comment in
      (has_state node.states down && has_state node.states not_responding)
      && (readable
          && (not (
                not (bytes_eq info.namespace s.namespace)
                || (is_empty info.pod_name
                    || (not (bytes_eq info.node_set_name s.name)
                        || (is_empty info.node_set_uid || not (bytes_eq info.node_set_uid s.uid)))))
              && not (is_empty (slurm_name node))))

  abbrev pub defunct_of : SlurmNode → DefunctNode
  defunct_of node = record {
    name = slurm_name node;
    pod_info = (parse_into_pod_info node.comment).1;
  }

  unfoldable pub defunct_nodes : NodeSet → List SlurmNode → List DefunctNode
  unfolding is_defunct parse_into_pod_info
  defunct_nodes s [] = []
  defunct_nodes s (node ∷ nodes) =
      let rest = defunct_nodes s nodes in if is_defunct s node then defunct_of node ∷ rest else rest

  module _ (w : World) where
    abbrev go_idle : PodInfo → SlurmNode → M (Unit {0})
    go_idle old node =
        if not (is_empty old.node)
        then update_tolerated w node (record no_update { state = some set_idle })
        else return tt

    -- UpdateNodeWithPodInfo. A comment that cannot be read is taken for what Unmarshal left.
    unfoldable pub update_node_with_pod_info : NodeSet → Pod → M (Unit {0})
    unfolding on_slurm_node equal to_string parse_into_pod_info
    update_node_with_pod_info s p = on_slurm_node w tt p λ node.
        let info = pod_info_of s p in
        let old = (parse_into_pod_info node.comment).1 in
        if equal old info
        then return tt
        else (update_tolerated w node (record no_update { comment = some (to_string info) })
            >> go_idle old node)

    -- GetDefunctNodesForNodeSet: `none` where there is no client.
    unfoldable pub get_defunct_nodes_for_node_set : NodeSet → M (Option (List DefunctNode))
    unfolding defunct_nodes
    get_defunct_nodes_for_node_set s = do
      known ← client_known w
      if known
          then (fetch_slurm_nodes w >>= λ nodes. return (some (defunct_nodes s nodes)))
          else return none
