-- ===== src/NodeSets/Records/Justified.antt =====
-- Which Slurm node records syncSlurmNodeRecords prunes
-- (internal/controller/nodeset/nodeset_sync.go).
use mathlib.Core.List.{Memᴰ}
use gce_hackathon.Prelude.{
  ℕ, zero, suc, ◌≡◌, refl, ap, ◌∙◌, ◌⊎◌, inl, inr, true, false, some, List, [], ◌∷◌, Bytes,
  bytes_eq, bytes_eq_sound, get_elem?, All, Bool-cases, Option-cases, arith,
}
use gce_hackathon.Objects.{Pod, Node, NodeSet, ScalingMode, PruneRecords}
use gce_hackathon.Slurm.{SlurmNode, down, not_responding}
use gce_hackathon.Api.{
  Error, Result, ok, err, Request, slurm_delete, slurm_list_nodes, get_pod, get_node, Trace, World,
  then_run, return,
}
use gce_hackathon.Batch.Runs.{IsOrder}
use gce_hackathon.SlurmControl.{has_state, delete_node, slurm_name, tolerate_error, is_empty}
use gce_hackathon.SlurmControl.PodInfo.{
  Json, DefunctNode, is_defunct, defunct_of, defunct_nodes, parse_into_pod_info,
  get_defunct_nodes_for_node_set,
}
use gce_hackathon.NodeSets.Batches.Invariant.{Keeps, for_each-Keeps}
use gce_hackathon.NodeSets.Records.{
  maps_to, delete_record, check_kube_node, check_pod, sync_slurm_node_record, prune_all,
  prune_by_mode, prune_by_policy, sync_slurm_node_records_node_not_found, sync_slurm_node_records,
}

module _ (w : World) (json : Json) (s : NodeSet) where
  -- Where the records are from: a Slurm node that the client listed as down and not responding,
  -- with a comment that names a Pod of the NodeSet.
  pub record Listed (d : DefunctNode) : Type 0 where
    pub node : SlurmNode
    pub nodes : List SlurmNode
    pub listed_at : Trace
    pub listing : w.read_slurm_nodes listed_at ≡ ok nodes
    pub is_listed : Memᴰ node nodes
    pub name_eq : d.name ≡ slurm_name node
    pub info_eq : d.pod_info ≡ (parse_into_pod_info json node.comment).1
    pub is_down : has_state node.states down ≡ true
    pub is_silent : has_state node.states not_responding ≡ true
    pub same_namespace : d.pod_info.namespace ≡ s.namespace
    pub same_name : d.pod_info.node_set_name ≡ s.name
    pub same_uid : d.pod_info.node_set_uid ≡ s.uid

  -- The Kubernetes node was missing, or its Pods have another Slurm node.
  abbrev pub NodeGone : DefunctNode → Trace → Type 0
  NodeGone d t =
      ((e : Error) × (w.read_node t d.pod_info.node ≡ err e) × (e.not_found ≡ true))
      ⊎ ((node : Node) × (w.read_node t d.pod_info.node ≡ ok node)
          × (bytes_eq (maps_to d.pod_info.node node) d.name ≡ false))

  -- Why a record of that name may be deleted.
  pub record Grounds (name : Bytes) : Type 0 where
    pub defunct : DefunctNode
    pub is_named : name ≡ defunct.name
    pub from : Listed defunct
    pub missing : Error
    pub pod_read_at : Trace
    pub pod_gone :
        w.read_pod pod_read_at defunct.pod_info.namespace defunct.pod_info.pod_name ≡ err missing
    pub is_missing : missing.not_found ≡ true
    pub node_read_at : Trace
    pub node_gone : NodeGone defunct node_read_at

  abbrev pub IsJustified : Request → Type 0
  IsJustified (slurm_delete name) = Grounds name
  IsJustified _ = Unit

  abbrev pub Justified : Trace → Type 0
  Justified t = All IsJustified t

  delete_record-Justified :
      (d : DefunctNode) (t : Trace)
      → Grounds d.name
      → Justified t
      → Justified (delete_record w d t).1
  unfolding delete_node
  delete_record-Justified d t g h = elim (Bool-cases (w.has_client t)) [
    | inr k ↦ rw k h
    | inl k ↦ rw k (elim (Option-cases (w.write t (slurm_delete d.name))) [
      | inl n ↦ rw n (g, h)
      | inr (e, n) ↦
          rw n (elim (Bool-cases (tolerate_error e)) [ inl b ↦ rw b (g, h) | inr b ↦ rw b (g, h) ])
    ])
  ]

  module _ (d : DefunctNode) (from : Listed d) (e : Error) (t0 : Trace)
      (gone : w.read_pod t0 d.pod_info.namespace d.pod_info.pod_name ≡ err e)
      (missing : e.not_found ≡ true) where
    grounds : (t : Trace) → NodeGone d t → Grounds d.name
    grounds t n = record {
      defunct = d;
      is_named = refl;
      from = from;
      missing = e;
      pod_read_at = t0;
      pod_gone = gone;
      is_missing = missing;
      node_read_at = t;
      node_gone = n;
    }

    check_kube_node-Justified :
        (t1 t : Trace) (r : Result Node)
        → w.read_node t1 d.pod_info.node ≡ r
        → Justified t
        → Justified (check_kube_node w d r t).1
    check_kube_node-Justified t1 t (err e1) found h = elim (Bool-cases e1.not_found) [
      | inl k ↦ rw k (delete_record-Justified d t (grounds t1 (inl (e1, found, k))) h)
      | inr k ↦ rw k h
    ]
    check_kube_node-Justified t1 t (ok node) found h =
        elim (Bool-cases (bytes_eq (maps_to d.pod_info.node node) d.name)) [
          | inl k ↦ rw k h
          | inr k ↦ rw k (delete_record-Justified d t (grounds t1 (inr (node, found, k))) h)
        ]

  check_pod-Justified :
      (d : DefunctNode)
      → Listed d
      → (t0 t : Trace) (r : Result Pod) → w.read_pod t0 d.pod_info.namespace d.pod_info.pod_name ≡ r
      → Justified t
      → Justified (check_pod w d r t).1
  check_pod-Justified d from t0 t (ok p) found h = h
  check_pod-Justified d from t0 t (err e) found h = elim (Bool-cases e.not_found) [
    | inr k ↦ rw k h
    | inl k ↦ elim (Bool-cases (is_empty d.pod_info.node)) [
      | inl b ↦ rw (k, b) h
      | inr b ↦
          rw (k, b)
            (check_kube_node-Justified d from e t0 found k t (get_node d.pod_info.node ∷ t)
              (w.read_node t d.pod_info.node) refl (tt, h))
    ]
  ]

  sync_slurm_node_record-Justified :
      (d : DefunctNode) → Listed d → Keeps Justified (sync_slurm_node_record w d)
  unfolding sync_slurm_node_record
  sync_slurm_node_record-Justified d from t h =
      check_pod-Justified d from t (get_pod d.pod_info.namespace d.pod_info.pod_name ∷ t)
        (w.read_pod t d.pod_info.namespace d.pod_info.pod_name) refl (tt, h)

  abbrev Origin : List SlurmNode → DefunctNode → Type 0
  Origin nodes d =
      (node : SlurmNode) × Memᴰ node nodes
      × (is_defunct json s node ≡ true)
      × (d ≡ defunct_of json node)

  Origin-tail :
      (node : SlurmNode) (nodes : List SlurmNode) (d : DefunctNode)
      → Origin nodes d
      → Origin (node ∷ nodes) d
  Origin-tail node nodes d (n, m, k, e) = (n, Memᴰ.tail m, k, e)

  abbrev Origins : List SlurmNode → List DefunctNode → Type 0
  Origins nodes ds = (i : ℕ) (d : DefunctNode) → get_elem? ds i ≡ some d → Origin nodes d

  Origins-cons :
      (node : SlurmNode) (nodes : List SlurmNode) (ds : List DefunctNode)
      → is_defunct json s node ≡ true
      → Origins nodes ds
      → Origins (node ∷ nodes) (defunct_of json node ∷ ds)
  Origins-cons node nodes ds k rest zero d h = (node, Memᴰ.head refl, k, cc h)
  Origins-cons node nodes ds k rest (suc i) d h = Origin-tail node nodes d (rest i d h)

  origins : (nodes : List SlurmNode) → Origins nodes (defunct_nodes json s nodes)
  unfolding defunct_nodes
  origins [] = λ i d h. cc h
  origins (node ∷ nodes) = elim (Bool-cases (is_defunct json s node)) [
    | inr k ↦ rw k (λ i d h. Origin-tail node nodes d (origins nodes i d h))
    | inl k ↦ rw k (Origins-cons node nodes (defunct_nodes json s nodes) k (origins nodes))
  ]

  origin-Listed :
      (t : Trace) (nodes : List SlurmNode) (d : DefunctNode)
      → w.read_slurm_nodes t ≡ ok nodes
      → Origin nodes d
      → Listed d
  unfolding is_defunct
  origin-Listed t nodes d listing (node, member, k, e) = record {
    node = node;
    nodes = nodes;
    listed_at = t;
    listing = listing;
    is_listed = member;
    name_eq = ap (λ (x : DefunctNode). x.name) e;
    info_eq = ap (λ (x : DefunctNode). x.pod_info) e;
    is_down = ground (arith, k);
    is_silent = ground (arith, k);
    same_namespace =
        ap (λ (x : DefunctNode). x.pod_info.namespace) e ∙ bytes_eq_sound _ _ (ground (arith, k));
    same_name =
        ap (λ (x : DefunctNode). x.pod_info.node_set_name) e
        ∙ bytes_eq_sound _ _ (ground (arith, k));
    same_uid =
        ap (λ (x : DefunctNode). x.pod_info.node_set_uid) e
        ∙ bytes_eq_sound _ _ (ground (arith, k));
  }

  module _ (order : ℕ → ℕ → List ℕ) (any_order : IsOrder order) where
    prune_listed-Justified :
        (t t1 : Trace) (r : Result (List SlurmNode))
        → w.read_slurm_nodes t ≡ r
        → Justified t1
        → Justified
            (then_run
              (prune_all w order json)
              (then_run (λ nodes. return (some (defunct_nodes json s nodes))) (r, t1))).1
    prune_listed-Justified t t1 (err e) found h = h
    prune_listed-Justified t t1 (ok nodes) found h =
        for_each-Keeps Justified (sync_slurm_node_record w) (defunct_nodes json s nodes)
          (λ d i e.
            sync_slurm_node_record-Justified d
              (origin-Listed t nodes d found (origins nodes i d e)))
          order any_order t1 h

    prune_by_mode-Justified :
        (mode : ScalingMode) → Keeps Justified (prune_by_mode w order json mode s)
    unfolding get_defunct_nodes_for_node_set
    prune_by_mode-Justified ScalingMode.unspecified t h = h
    prune_by_mode-Justified ScalingMode.statefulset t h = h
    prune_by_mode-Justified ScalingMode.daemonset t h = elim (Bool-cases (w.has_client t)) [
      | inr k ↦ rw k h
      | inl k ↦
          rw k (prune_listed-Justified t (slurm_list_nodes ∷ t) (w.read_slurm_nodes t) refl (tt, h))
    ]

    by_policy-Justified :
        (policy : PruneRecords) → Keeps Justified (prune_by_policy w order json policy s)
    unfolding sync_slurm_node_records_node_not_found
    by_policy-Justified PruneRecords.unspecified t h = h
    by_policy-Justified PruneRecords.never t h = h
    by_policy-Justified PruneRecords.node_not_found t h = prune_by_mode-Justified s.scaling_mode t h

    -- Each request of syncSlurmNodeRecords to delete a Slurm node has its grounds: the node was
    -- listed as down and not responding, with a comment that names a Pod of the NodeSet (by the
    -- NodeSet's namespace, name and UID); that Pod was read and is missing; and the Kubernetes node
    -- of the comment was read and is missing too, or its Pods have a Slurm node of another name.
    -- So it is whatever is answered and in whatever order the calls of a batch run.
    pub sync_slurm_node_records-Justified :
        (t : Trace) → Justified t → Justified (sync_slurm_node_records w order json s t).1
    unfolding sync_slurm_node_records
    sync_slurm_node_records-Justified t h = by_policy-Justified s.prune_slurm_node_records t h
