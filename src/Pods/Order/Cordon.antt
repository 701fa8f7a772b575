-- ===== src/Pods/Order/Cordon.antt =====
-- ActivePods.Less (internal/controller/nodeset/utils/sort.go) and the cordon annotation.
use gce_hackathon.Prelude.{
  IsWeakOn, or_next, lex, lex-IsWeakOn, ℕ, ◌≡◌, ap, ◌∙◌, sym, Bool, true, false, ◌&&◌, Option,
  Bytes, arith, bytes_eq_refl, if◌then◌else◌,
}
use gce_hackathon.Objects.{Pod}
use gce_hackathon.Pods.{PodUtil}
use gce_hackathon.Pods.Order.{active_less, cordon_requested, step_cordon}
use gce_hackathon.Pods.Order.Weak.{Everything, by_key, by_key-IsWeakOn}
use gce_hackathon.Pods.Order.Steps.{
  after_cordon, before_cordon, active_less-steps, after_cordon-IsWeakOn, before_cordon-IsWeakOn,
}

abbrev cordon_key : Pod → ℕ
cordon_key p = if cordon_requested p then 0 else 1

-- The Pods whose cordon annotation does not read true.
abbrev pub NotCordoned : Pod → Type 0
NotCordoned p = cordon_requested p ≡ false

module _ (u : PodUtil) (parse_time : Bytes → Option ℕ) where
  -- A Pod is less than itself exactly when its cordon annotation reads true, so on such Pods the
  -- order is not the strict weak order that package `sort` asks for.
  pub active_less_self : (p : Pod) → active_less u parse_time p p ≡ cordon_requested p
  unfolding active_less
  active_less_self p = ground (arith, bytes_eq_refl p.node_name)

  abbrev rank_order : Pod → Pod → Bool
  rank_order = before_cordon u parse_time (lex (by_key cordon_key) (after_cordon u parse_time))

  rank_order-IsWeakOn : IsWeakOn Everything rank_order
  rank_order-IsWeakOn =
      before_cordon-IsWeakOn u parse_time
        (lex-IsWeakOn (by_key-IsWeakOn cordon_key) (after_cordon-IsWeakOn u parse_time))

  cordon_step :
      (p q : Pod) (next : Bool)
      → (cordon_requested p && cordon_requested q) ≡ false
      → step_cordon p q next ≡ or_next (by_key cordon_key p q) (by_key cordon_key q p) next
  cordon_step p q next h = ground arith

  active_less-rank :
      (p q : Pod)
      → (cordon_requested p && cordon_requested q) ≡ false
      → active_less u parse_time p q ≡ rank_order p q
  active_less-rank p q h =
      active_less-steps u parse_time p q
      ∙ ap (λ b. before_cordon u parse_time (λ _ _. b) p q) (cordon_step p q _ h)

  -- Two Pods are less than one another only if both are cordoned.
  pub active_less_both :
      (p q : Pod)
      → active_less u parse_time p q ≡ true
      → active_less u parse_time q p ≡ true
      → (cordon_requested p && cordon_requested q) ≡ true
  active_less_both p q h k =
      ground (arith, active_less-rank p q, active_less-rank q p, rank_order-IsWeakOn.asym p q tt tt)

  -- On the Pods with no cordon request the order is a strict weak order.
  pub active_less-IsWeakOn : IsWeakOn NotCordoned (active_less u parse_time)
  active_less-IsWeakOn = record {
    asym = λ p q hp hq h.
        active_less-rank q p (ground arith)
        ∙ rank_order-IsWeakOn.asym p q tt tt (sym (active_less-rank p q (ground arith)) ∙ h);
    cotrans = λ p q r hp hq hr h. ground (
      arith,
      active_less-rank p q,
      active_less-rank q r,
      rank_order-IsWeakOn.cotrans p q r tt tt tt (sym (active_less-rank p r (ground arith)) ∙ h),
    );
  }
