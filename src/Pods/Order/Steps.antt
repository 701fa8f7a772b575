-- ===== src/Pods/Order/Steps.antt =====
-- ActivePods.Less (internal/controller/nodeset/utils/sort.go) as a lexicographic product: each of
-- its steps decides by an order of its own.
use gce_hackathon.Prelude.{
  IsWeakOn, or_next, lex, lex-IsWeakOn, ℕ, ◌≡◌, refl, ap, ◌∙◌, Bool, false, not, ◌&&◌, ◌||◌, Option,
  [], ◌∷◌, Bytes, bytes_eq, ltb, if◌then◌else◌, arith, inl,
}
use gce_hackathon.Objects.{Pod}
use gce_hackathon.Pods.{PodUtil}
use gce_hackathon.Names.{get_ordinal}
use gce_hackathon.Pods.Order.{
  unassigned, phase_weight, after_or_zero, pod_ready_time, deletion_cost, pod_deadline, step_phase,
  step_ready, step_cost, step_deadline, step_cordon, step_ordinal, step_ready_time, step_created,
  active_less,
}
use gce_hackathon.Pods.Order.Weak.{
  Everything, by_key, by_key-IsWeakOn, by_latest, by_latest-IsWeakOn, by_int, by_int-IsWeakOn,
  by_int_down, by_int_down-IsWeakOn,
}

abbrev assigned_key : Pod → ℕ
assigned_key p = if unassigned p.node_name then 0 else 1

abbrev phase_key : Pod → ℕ
phase_key p = phase_weight p.phase

abbrev ready_key : PodUtil → Pod → ℕ
ready_key u p = if u.is_pod_ready p then 1 else 0

abbrev created_key : Pod → ℕ
created_key p = p.creation_timestamp

abbrev never_less : Pod → Pod → Bool
never_less p q = false

assigned_names :
    (s t : Bytes) (next : Bool)
    → (if not (bytes_eq s t) && (unassigned s || unassigned t) then unassigned s else next)
      ≡ or_next
          (ltb (if unassigned s then 0 else 1) (if unassigned t then 0 else 1))
          (ltb (if unassigned t then 0 else 1) (if unassigned s then 0 else 1))
          next
unfolding bytes_eq
assigned_names [] [] next = refl
assigned_names [] (y ∷ t) next = refl
assigned_names (x ∷ s) [] next = refl
assigned_names (x ∷ s) (y ∷ t) next = ground arith

module _ (u : PodUtil) (parse_time : Bytes → Option ℕ) where
  abbrev pub age_order : Pod → Pod → Bool
  age_order = lex (by_latest (pod_ready_time u)) (lex (by_latest created_key) never_less)

  abbrev pub after_cordon : Pod → Pod → Bool
  after_cordon = lex (by_int_down get_ordinal) age_order

  -- What decides before the cordon annotation is read, then `next`.
  abbrev pub before_cordon : (Pod → Pod → Bool) → Pod → Pod → Bool
  before_cordon next = lex (by_key assigned_key) (
      lex (by_key phase_key) (
        lex (by_key (ready_key u))
          (lex (by_int deletion_cost) (lex (by_key (pod_deadline parse_time)) next))))

  module _ (p q : Pod) where
    phase_step :
        (next : Bool)
        → step_phase p q next ≡ or_next (by_key phase_key p q) (by_key phase_key q p) next
    phase_step next = ground arith

    cost_step :
        (next : Bool)
        → step_cost p q next ≡ or_next (by_int deletion_cost p q) (by_int deletion_cost q p) next
    cost_step next = ground arith

    deadline_step :
        (next : Bool)
        → step_deadline parse_time p q next
          ≡ or_next
              (by_key (pod_deadline parse_time) p q)
              (by_key (pod_deadline parse_time) q p)
              next
    deadline_step next = ground arith

    ordinal_step :
        (next : Bool)
        → step_ordinal p q next
          ≡ or_next (by_int_down get_ordinal p q) (by_int_down get_ordinal q p) next
    ordinal_step next = ground arith

    created_step : step_created p q false ≡ lex (by_latest created_key) never_less p q
    unfolding after_or_zero
    created_step = ground arith

    -- Of two Pods of which one is ready, the step of the ready times is not reached.
    ready_time_step :
        (next : Bool)
        → u.is_pod_ready p ≡ u.is_pod_ready q
        → step_ready_time u p q next
          ≡ or_next (by_latest (pod_ready_time u) p q) (by_latest (pod_ready_time u) q p) next
    unfolding after_or_zero pod_ready_time
    ready_time_step next h = ground arith

    ready_step :
        (x y : Bool)
        → (u.is_pod_ready p ≡ u.is_pod_ready q → x ≡ y)
        → step_ready u p q x ≡ or_next (by_key (ready_key u) p q) (by_key (ready_key u) q p) y
    ready_step x y h = ground arith

    tail_step :
        (cordon : Bool → Bool)
        → u.is_pod_ready p ≡ u.is_pod_ready q
        → step_cost p q (
            step_deadline parse_time p q
              (cordon (step_ordinal p q (step_ready_time u p q (step_created p q false)))))
          ≡ or_next (by_int deletion_cost p q) (by_int deletion_cost q p) (
              or_next
                (by_key (pod_deadline parse_time) p q)
                (by_key (pod_deadline parse_time) q p)
                (cordon (after_cordon p q)))
    tail_step cordon same =
        cost_step _
        ∙ ap (or_next (by_int deletion_cost p q) (by_int deletion_cost q p)) (
            deadline_step _
            ∙ ap
                (λ b.
                  or_next (by_key (pod_deadline parse_time) p q)
                    (by_key (pod_deadline parse_time) q p) (cordon b))
                (ordinal_step _
                  ∙ ap (or_next (by_int_down get_ordinal p q) (by_int_down get_ordinal q p)) (
                      ready_time_step _ same
                      ∙ ap
                          (or_next (by_latest (pod_ready_time u) p q)
                            (by_latest (pod_ready_time u) q p))
                          created_step)))

    -- `active_less` is the lexicographic product of the orders of its steps, with the cordon step
    -- between them.
    pub active_less-steps :
        active_less u parse_time p q ≡ before_cordon (λ a b. step_cordon a b (after_cordon a b)) p q
    unfolding active_less
    active_less-steps =
        assigned_names p.node_name q.node_name _
        ∙ ap (or_next (by_key assigned_key p q) (by_key assigned_key q p)) (
            phase_step _
            ∙ ap (or_next (by_key phase_key p q) (by_key phase_key q p))
                (ready_step _ _ (tail_step (step_cordon p q))))

  pub after_cordon-IsWeakOn : IsWeakOn Everything after_cordon
  after_cordon-IsWeakOn = lex-IsWeakOn (by_int_down-IsWeakOn get_ordinal) (
      lex-IsWeakOn (by_latest-IsWeakOn (pod_ready_time u)) (
        lex-IsWeakOn (by_latest-IsWeakOn created_key)
          (record { asym = λ p q _ _ h. refl; cotrans = λ p q r _ _ _ h. inl h })))

  pub before_cordon-IsWeakOn :
      {next : Pod → Pod → Bool}
      → IsWeakOn Everything next
      → IsWeakOn Everything (before_cordon next)
  before_cordon-IsWeakOn w = lex-IsWeakOn (by_key-IsWeakOn assigned_key) (
      lex-IsWeakOn (by_key-IsWeakOn phase_key) (
        lex-IsWeakOn (by_key-IsWeakOn (ready_key u)) (
          lex-IsWeakOn (by_int-IsWeakOn deletion_cost)
            (lex-IsWeakOn (by_key-IsWeakOn (pod_deadline parse_time)) w))))
