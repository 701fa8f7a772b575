-- ===== src/Pods/Order.antt =====
-- internal/controller/nodeset/utils/sort.go: the order in which Pods are given up (ActivePods) and
-- the order by creation (PodsByCreationTimestamp). Less of ActivePods is a chain of steps, each
-- taken where the one before does not decide; here a step is a function that is given the next.
pub mod Weak
pub mod Steps
pub mod Cordon
use gce_hackathon.Prelude.{
  ℕ, ℤ, pos, ltb_ℤ, eqb_ℤ, Bool, true, false, not, ◌&&◌, ◌||◌, Option, none, some, List, [], ◌∷◌,
  Bytes, codes, bytes_eq, bytes_lt, ltb, ◌==◌, if◌then◌else◌,
}
use gce_hackathon.Objects.{
  Pod, PodCondition, Phase, unset, pending, running, succeeded, failed, unknown,
}
use gce_hackathon.Objects.Keys.{
  annotation_pod_cordon, annotation_pod_deletion_cost, annotation_pod_deadline,
}
use gce_hackathon.Pods.{PodUtil}
use gce_hackathon.Pods.Annotations.{
  get_number_from_annotations, get_bool_from_annotations, get_time_from_annotations,
}
use gce_hackathon.Names.{get_ordinal}

abbrev pub unassigned : Bytes → Bool
unassigned [] = true
unassigned (c ∷ s) = false

abbrev pub bool_eq : Bool → Bool → Bool
bool_eq true b = b
bool_eq false b = not b

-- `podPhaseToWeight`; a phase that is not in the map has the zero weight.
abbrev pub phase_weight : Phase → ℕ
phase_weight pending = 0
phase_weight unknown = 1
phase_weight running = 2
phase_weight _ = 0

unfoldable pub after_or_zero : ℕ → ℕ → Bool
after_or_zero t1 t2 = if t1 == 0 || t2 == 0 then t1 == 0 else ltb t2 t1

unfoldable pub ready_transition : List PodCondition → ℕ
unfolding bytes_eq
ready_transition [] = 0
ready_transition (c ∷ cs) =
    if bytes_eq c.type (codes "Ready") && bytes_eq c.status (codes "True")
    then c.last_transition
    else ready_transition cs

unfoldable pub pod_ready_time : PodUtil → Pod → ℕ
pod_ready_time u p = if u.is_pod_ready p then ready_transition p.conditions else 0

-- Unassigned before assigned.
abbrev pub step_assigned : Pod → Pod → Bool → Bool
step_assigned p q next =
    if not (bytes_eq p.node_name q.node_name) && (unassigned p.node_name || unassigned q.node_name)
    then unassigned p.node_name
    else next

-- Pending before unknown before running.
abbrev pub step_phase : Pod → Pod → Bool → Bool
step_phase p q next =
    if not (phase_weight p.phase == phase_weight q.phase)
    then ltb (phase_weight p.phase) (phase_weight q.phase)
    else next

-- Not ready before ready.
abbrev pub step_ready : PodUtil → Pod → Pod → Bool → Bool
step_ready u p q next =
    if not (bool_eq (u.is_pod_ready p) (u.is_pod_ready q)) then not (u.is_pod_ready p) else next

unfoldable pub deletion_cost : Pod → ℤ
deletion_cost p = (get_number_from_annotations p.annotations annotation_pod_deletion_cost).0

-- Lower deletion cost before higher.
abbrev pub step_cost : Pod → Pod → Bool → Bool
step_cost p q next =
    if not (eqb_ℤ (deletion_cost p) (deletion_cost q))
    then ltb_ℤ (deletion_cost p) (deletion_cost q)
    else next

unfoldable pub pod_deadline : (Bytes → Option ℕ) → Pod → ℕ
pod_deadline parse_time p =
    (get_time_from_annotations parse_time p.annotations annotation_pod_deadline).0

-- Earlier deadline before later.
abbrev pub step_deadline : (Bytes → Option ℕ) → Pod → Pod → Bool → Bool
step_deadline parse_time p q next =
    if not (pod_deadline parse_time p == pod_deadline parse_time q)
    then ltb (pod_deadline parse_time p) (pod_deadline parse_time q)
    else next

unfoldable pub cordon_requested : Pod → Bool
cordon_requested p = (get_bool_from_annotations p.annotations annotation_pod_cordon).0

-- Cordoned before not cordoned.
abbrev pub step_cordon : Pod → Pod → Bool → Bool
step_cordon p q next = if cordon_requested p || cordon_requested q then cordon_requested p else next

-- Higher ordinal before lower.
abbrev pub step_ordinal : Pod → Pod → Bool → Bool
step_ordinal p q next =
    if not (eqb_ℤ (get_ordinal p) (get_ordinal q))
    then ltb_ℤ (get_ordinal q) (get_ordinal p)
    else next

-- Of ready Pods, the latest to become so first.
abbrev pub step_ready_time : PodUtil → Pod → Pod → Bool → Bool
step_ready_time u p q next =
    if u.is_pod_ready p && u.is_pod_ready q
    then (if not (pod_ready_time u p == pod_ready_time u q)
        then after_or_zero (pod_ready_time u p) (pod_ready_time u q)
        else next)
    else next

-- No creation time, then newer, then older.
abbrev pub step_created : Pod → Pod → Bool → Bool
step_created p q next =
    if not (p.creation_timestamp == q.creation_timestamp)
    then after_or_zero p.creation_timestamp q.creation_timestamp
    else next

-- ActivePods.Less, of the Pods at the two places.
unfoldable pub active_less : PodUtil → (Bytes → Option ℕ) → Pod → Pod → Bool
active_less u parse_time p q = step_assigned p q (
    step_phase p q (
      step_ready u p q (
        step_cost p q (
          step_deadline parse_time p q (
            step_cordon p q (step_ordinal p q (step_ready_time u p q (step_created p q false))))))))

-- PodsByCreationTimestamp.Less.
unfoldable pub created_less : Pod → Pod → Bool
unfolding bytes_lt
created_less p q =
    if p.creation_timestamp == q.creation_timestamp
    then bytes_lt p.name q.name
    else ltb p.creation_timestamp q.creation_timestamp
