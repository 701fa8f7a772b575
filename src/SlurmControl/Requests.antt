-- ===== src/SlurmControl/Requests.antt =====
-- The operations of SlurmControl create and delete no Pods.
use gce_hackathon.Prelude.{Bool, Bytes, arith}
use gce_hackathon.Objects.{Pod}
use gce_hackathon.Api.{World}
use gce_hackathon.Api.Counts.{counted, AtMost}
use gce_hackathon.SlurmControl.{
  make_node_drain, make_node_undrain, is_node_drain, is_node_drained, is_node_reason_ours,
}

module _ (creations deletions : Bool) (w : World) (p : Pod) where
  pub make_node_drain-AtMost :
      (reason : Bytes) → AtMost (counted creations deletions) 0 (make_node_drain w p reason)
  unfolding make_node_drain
  make_node_drain-AtMost reason t = ground arith

  pub make_node_undrain-AtMost :
      (reason : Bytes) → AtMost (counted creations deletions) 0 (make_node_undrain w p reason)
  unfolding make_node_undrain
  make_node_undrain-AtMost reason t = ground arith

  pub is_node_drain-AtMost : AtMost (counted creations deletions) 0 (is_node_drain w p)
  unfolding is_node_drain
  is_node_drain-AtMost t = ground arith

  pub is_node_drained-AtMost : AtMost (counted creations deletions) 0 (is_node_drained w p)
  unfolding is_node_drained
  is_node_drained-AtMost t = ground arith

  pub is_node_reason_ours-AtMost : AtMost (counted creations deletions) 0 (is_node_reason_ours w p)
  unfolding is_node_reason_ours
  is_node_reason_ours-AtMost t = ground arith
