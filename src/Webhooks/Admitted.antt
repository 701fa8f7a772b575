-- ===== src/Webhooks/Admitted.antt =====
-- NodeSets through requests that their webhook (internal/webhook/nodeset_webhook.go) admits, and the
-- rolling updates of what it admits (internal/controller/nodeset/nodeset_sync.go).
use gce_hackathon.Prelude.{
  ℤ, ltb_ℤ, pos, ◌≡◌, refl, ◌≢◌, ◌∙◌, Bool, true, false, not, Option, none, some, List, [], ◌∷◌,
  ◌++◌, arith,
}
use gce_hackathon.Objects.{NodeSet, Claim, IntOrString, int_value, string_value, Reference}
use gce_hackathon.Names.{is_empty}
use gce_hackathon.Webhooks.{
  Refusal, not_positive, no_controller_name, DeepEqual, refuse_if, check_max_unavailable,
  validate_node_set, validate_create_node_set, update_refusals, validate_update_node_set,
}

-- Of a list without elements, both parts have none.
pub append_nil : {A : Type 0} (xs ys : List A) → xs ++ ys ≡ [] → (xs ≡ []) × (ys ≡ [])
append_nil [] ys h = (refl, h)
append_nil (x ∷ xs) ys h = grind (arith, h)

pub refuse_if-nil : (b : Bool) (r : Refusal) → refuse_if b r ≡ [] → b ≡ false
unfolding refuse_if
refuse_if-nil true r h = grind (arith, h)
refuse_if-nil false r h = refl

refuse_not-nil : (b : Bool) (r : Refusal) → refuse_if (not b) r ≡ [] → b ≡ true
unfolding refuse_if
refuse_not-nil true r h = refl
refuse_not-nil false r h = grind (arith, h)

pub no_error-nil :
    {Aggregate : Type 0} (new_aggregate : List Refusal → Option Aggregate)
    → ((r : Refusal) (rs : List Refusal) → new_aggregate (r ∷ rs) ≢ none)
    → (rs : List Refusal) → new_aggregate rs ≡ none
    → rs ≡ []
no_error-nil new_aggregate never_none [] h = refl
no_error-nil new_aggregate never_none (r ∷ rs) h = absurd (never_none r rs h)

-- What validateNodeSet makes sure of.
abbrev pub Valid : NodeSet → Type 0
Valid s = (is_empty s.controller_ref.name ≡ false) × (check_max_unavailable s.max_unavailable ≡ [])

validate_node_set-Valid : (s : NodeSet) → (validate_node_set s).1 ≡ [] → Valid s
unfolding validate_node_set
validate_node_set-Valid s h =
    let parts = append_nil (refuse_if (is_empty s.controller_ref.name) no_controller_name) _ h in
    (
      refuse_if-nil (is_empty s.controller_ref.name) no_controller_name parts.0,
      (append_nil (check_max_unavailable s.max_unavailable) _ parts.1).0,
    )

pub check_max_unavailable-positive :
    (v : ℤ) → check_max_unavailable (some (int_value v)) ≡ [] → ltb_ℤ v (pos 1) ≡ false
unfolding check_max_unavailable
check_max_unavailable-positive v h = refuse_if-nil (ltb_ℤ v (pos 1)) (not_positive v) h

-- A limit on the Pods that are unavailable that is a number, or none.
abbrev pub IsNumber : Option IntOrString → Type 0
IsNumber none = Unit
IsNumber (some (int_value v)) = Unit
IsNumber (some (string_value v)) = ⊥

module _ {Aggregate : Type 0} (new_aggregate : List Refusal → Option Aggregate)
    (eq : DeepEqual) where
  -- From the first NodeSet, that was created, to another one by updates; the webhook admits each.
  pub data Admitted (first : NodeSet) : NodeSet → Type 0 where
    created : (validate_create_node_set new_aggregate eq first).1 ≡ none → Admitted first first
    updated :
        {old s : NodeSet}
        → Admitted first old
        → (validate_update_node_set new_aggregate eq old s).1 ≡ none
        → Admitted first s

  -- What the update of a NodeSet keeps of the old one.
  abbrev pub Keeps : NodeSet → NodeSet → Type 0
  Keeps old s =
      (s.controller_ref ≡ old.controller_ref)
      × (s.volume_claim_templates ≡ old.volume_claim_templates)

  module _ (never_none : (r : Refusal) (rs : List Refusal) → new_aggregate (r ∷ rs) ≢ none)
      (references_sound : (a b : Reference) → eq.references a b ≡ true → a ≡ b)
      (claims_sound : (a b : List Claim) → eq.claims a b ≡ true → a ≡ b) where
    update-Keeps :
        (old s : NodeSet)
        → (validate_update_node_set new_aggregate eq old s).1 ≡ none
        → Valid s × Keeps old s
    unfolding validate_update_node_set update_refusals
    update-Keeps old s h =
        let no_errors = no_error-nil new_aggregate never_none _ h in
        let parts = append_nil ((validate_node_set s).1) _ no_errors in
        let changes = append_nil _ _ parts.1 in
        (
          validate_node_set-Valid s parts.0,
          (
            references_sound s.controller_ref old.controller_ref (refuse_not-nil _ _ changes.0),
            claims_sound s.volume_claim_templates old.volume_claim_templates
                (refuse_not-nil _ _ changes.1),
          ),
        )

    -- Suppose that NewAggregate makes an error of any list of errors that is not empty, and that
    -- DeepEqual holds of equal references and claims alone. Then a NodeSet that the webhook admitted
    -- when it was created and at each update since names a controller, has no maxUnavailable that the
    -- webhook refuses, and has the reference to the controller and the claim templates with which it
    -- was created.
    pub Admitted-Keeps : (first s : NodeSet) → Admitted first s → Valid s × Keeps first s
    unfolding validate_create_node_set
    Admitted-Keeps first s (created h) =
        (validate_node_set-Valid first (no_error-nil new_aggregate never_none _ h), (refl, refl))
    Admitted-Keeps first s (updated {old} before h) =
        let kept = (Admitted-Keeps first old before).1 in
        let now = update-Keeps old s h in (now.0, (now.1.0 ∙ kept.0, now.1.1 ∙ kept.1))
