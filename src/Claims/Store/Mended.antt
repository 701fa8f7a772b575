-- ===== src/Claims/Store/Mended.antt =====
-- UpdatePodPVCsForRetentionPolicy mends what PodPVCsMatchRetentionPolicy finds
-- (internal/controller/nodeset/podcontrol/podcontrol.go).
use gce_hackathon.Prelude.{
  ◌≡◌, refl, sym, subst, ◌∙◌, Bool, true, false, ◌&&◌, none, List, [], ◌∷◌, Bytes, bytes_eq, All,
  Bool-cases, Option-cases, inl, inr, ◌⊎◌, if◌then◌else◌,
}
use gce_hackathon.Objects.{NodeSet, Pod, Claim}
use gce_hackathon.Api.{Error, Result, ok, err, get_claim, update_claim, Trace, World, M, then_run}
use gce_hackathon.Claims.{of_node_set, of_pod, is_claim_owner_up_to_date, update_claim_owner_ref}
use gce_hackathon.Claims.Scrub.{IsOwned, IsCurrent}
use gce_hackathon.Claims.UpToDate.{up_to_date-updated}
use gce_hackathon.Claims.Settled.{tidy-updated}
use gce_hackathon.Claims.Names.{claim_name}
use gce_hackathon.Claims.Store.{
  claims_match, check_claim, refresh_claim, refresh_claims, pod_pvcs_match_retention_policy,
  update_pod_pvcs_for_retention_policy,
}

-- What the API server answers of claims while nobody else writes them: an update that is accepted
-- is what is read from then on, and reading changes nothing.
pub record IsClaimStore (w : World) : Type 0 where
  pub reads_update :
      (t : Trace) (c : Claim) (namespace name : Bytes)
      → w.write t (update_claim c) ≡ none
      → w.read_claim (update_claim c ∷ t) namespace name ≡ (
          if bytes_eq c.namespace namespace && bytes_eq c.name name
          then ok c
          else w.read_claim t namespace name)
  pub reads_read :
      (t : Trace) (namespace1 name1 namespace name : Bytes)
      → w.read_claim (get_claim namespace1 name1 ∷ t) namespace name ≡ w.read_claim t namespace name
  pub reads_named :
      (t : Trace) (c : Claim) (namespace name : Bytes)
      → w.read_claim t namespace name ≡ ok c
      → (bytes_eq c.namespace namespace ≡ true) × (bytes_eq c.name name ≡ true)

pub Result-cases {ℓ} :
    {A : Type ℓ} (r : Result A) → ((a : A) × (r ≡ ok a)) ⊎ ((e : Error) × (r ≡ err e))
Result-cases (ok a) = inl (a, refl)
Result-cases (err e) = inr (e, refl)

module _ (w : World) (store : IsClaimStore w) (s : NodeSet) (p : Pod)
    (distinct : bytes_eq s.uid p.uid ≡ false) where
  abbrev read : Trace → Bytes → Result Claim
  read t name = w.read_claim t s.namespace name

  -- The claim is as the policy wants it, or there is none.
  abbrev pub IsRight : Result Claim → Type 0
  IsRight (ok c) = is_claim_owner_up_to_date c.owner_refs s p ≡ true
  IsRight (err e) = e.not_found ≡ true

  abbrev pub IsTidy : Result Claim → Type 0
  IsTidy (ok c) =
      All (IsOwned (of_node_set s) (of_pod p)) c.owner_refs
      × All (IsCurrent (of_node_set s) (of_pod p)) c.owner_refs
  IsTidy (err e) = Unit

  abbrev Progress : Trace → Trace → Type 0
  Progress t t1 =
      (name : Bytes)
      → (IsRight (read t name) → IsRight (read t1 name))
        × (IsTidy (read t name) → IsTidy (read t1 name))

  abbrev Ensures : (Trace → Type 0) → Result (Unit {0}) × Trace → Type 0
  Ensures P (ok _, t) = P t
  Ensures P (err _, t) = Unit

  same_answers : {t t1 : Trace} → ((name : Bytes) → read t1 name ≡ read t name) → Progress t t1
  same_answers h name = ((λ r. subst IsRight (sym (h name)) r), λ r. subst IsTidy (sym (h name)) r)

  abbrev renewed : Claim → Claim
  renewed c = record c { owner_refs = update_claim_owner_ref c.owner_refs s p }

  -- After an update that is accepted.
  module _ (t : Trace) (name : Bytes) (c : Claim) (found : read t name ≡ ok c)
      (tidy : IsTidy (read t name)) (accepted : w.write t (update_claim (renewed c)) ≡ none) where
    reads_renewed :
        (other : Bytes)
        → read (update_claim (renewed c) ∷ t) other
          ≡ (if bytes_eq c.name other then ok (renewed c) else read t other)
    reads_renewed other =
        store.reads_update t (renewed c) s.namespace other accepted
        ∙ rw ((store.reads_named t c s.namespace name found).0) refl

    renewed-IsRight : IsRight (ok (renewed c)) × IsTidy (ok (renewed c))
    renewed-IsRight =
        let (owned, current) = subst IsTidy found tidy in
        (
          up_to_date-updated s p distinct c.owner_refs owned current,
          tidy-updated s p distinct c.owner_refs owned,
        )

    update-Progress :
        Progress t (update_claim (renewed c) ∷ t)
        × IsRight (read (update_claim (renewed c) ∷ t) name)
    update-Progress =
        let t1 = update_claim (renewed c) ∷ t in
        let here = λ (other : Bytes) (e : bytes_eq c.name other ≡ true).
          let now : read t1 other ≡ ok (renewed c) = reads_renewed other ∙ rw e refl in now in
        (
          (λ other. elim (Bool-cases (bytes_eq c.name other)) [
            | inl e ↦ (
              (λ _. subst IsRight (sym (here other e)) renewed-IsRight.0),
              λ _. subst IsTidy (sym (here other e)) renewed-IsRight.1,
            )
            | inr e ↦
                let now : read t1 other ≡ read t other = reads_renewed other ∙ rw e refl in
                ((λ r. subst IsRight (sym now) r), λ r. subst IsTidy (sym now) r)
          ]),
          subst IsRight (sym (here name (store.reads_named t c s.namespace name found).1))
              renewed-IsRight.0,
        )

  abbrev Mended : Trace → Bytes → Trace → Type 0
  Mended t name t1 = Progress t t1 × IsRight (read t1 name)

  -- One round, after the claim was read.
  refresh_claim-Mended :
      (name : Bytes) (t : Trace) (r : Result Claim)
      → read t name ≡ r
      → IsTidy (read t name)
      → Ensures (Mended t name) (refresh_claim w s p name r t)
  refresh_claim-Mended name t (err e) found tidy = elim (Bool-cases e.not_found) [
    | inl h ↦ rw h (same_answers (λ _. refl), subst IsRight (sym found) h)
    | inr h ↦ rw h tt
  ]
  refresh_claim-Mended name t (ok c) found tidy =
      elim (Bool-cases (is_claim_owner_up_to_date c.owner_refs s p)) [
        | inl h ↦ rw h (same_answers (λ _. refl), subst IsRight (sym found) h)
        | inr h ↦ rw h (elim (Option-cases (w.write t (update_claim (renewed c)))) [
          | inl accepted ↦ rw accepted (update-Progress t name c found tidy accepted)
          | inr (e, refused) ↦ rw refused tt
        ])
      ]

  Ensures-then :
      (P Q : Trace → Type 0) (k : M (Unit {0})) (r : Result (Unit {0}) × Trace)
      → Ensures P r
      → ((t : Trace) → P t → Ensures Q (k t))
      → Ensures Q (then_run (λ _. k) r)
  Ensures-then P Q k (ok _, t) h step = step t h
  Ensures-then P Q k (err e, t) h step = tt

  Ensures-map :
      (P Q : Trace → Type 0) (r : Result (Unit {0}) × Trace)
      → Ensures P r
      → ((t : Trace) → P t → Q t)
      → Ensures Q r
  Ensures-map P Q (ok _, t) h step = step t h
  Ensures-map P Q (err e, t) h step = tt

  Progress-trans : (t t1 t2 : Trace) → Progress t t1 → Progress t1 t2 → Progress t t2
  Progress-trans t t1 t2 g h name =
      ((λ r. (h name).0 ((g name).0 r)), λ r. (h name).1 ((g name).1 r))

  AllRight : Trace → List Claim → Type 0
  AllRight t templates = All (λ c. IsRight (read t (claim_name s p c.name))) templates

  after_read :
      (t : Trace) (name other : Bytes) → read (get_claim s.namespace name ∷ t) other ≡ read t other
  after_read t name other = store.reads_read t s.namespace name s.namespace other

  refresh_claims-Mended :
      (templates : List Claim) (t : Trace)
      → ((name : Bytes) → IsTidy (read t name))
      → Ensures (λ t1. Progress t t1 × AllRight t1 templates) (refresh_claims w s p templates t)
  unfolding refresh_claims AllRight
  refresh_claims-Mended [] t tidy = (same_answers (λ _. refl), tt)
  refresh_claims-Mended (c ∷ templates) t tidy =
      let name = claim_name s p c.name in
      let t0 = get_claim s.namespace name ∷ t in
      let begun : Progress t t0 = same_answers (after_read t name) in
      let Rest = λ (t1 t2 : Trace). Progress t1 t2 × AllRight t2 templates in
      let Done = λ (t2 : Trace). Progress t t2 × AllRight t2 (c ∷ templates) in
      Ensures-then (Mended t0 name) Done (refresh_claims w s p templates)
        (refresh_claim w s p name (read t name) t0)
        (refresh_claim-Mended name t0 (read t name) (after_read t name name)
          ((begun name).1 (tidy name)))
        (λ t1 now.
          Ensures-map (Rest t1) Done (refresh_claims w s p templates t1)
            (refresh_claims-Mended templates t1
              (λ other. (now.0 other).1 ((begun other).1 (tidy other))))
            (λ t2 rest. (
              Progress-trans t t0 t2 begun (Progress-trans t0 t1 t2 now.0 rest.0),
              ((rest.0 name).0 now.1, rest.1),
            )))

  All-same :
      (t t1 : Trace) (templates : List Claim)
      → ((name : Bytes) → read t1 name ≡ read t name)
      → AllRight t templates
      → AllRight t1 templates
  unfolding AllRight
  All-same t t1 [] same h = tt
  All-same t t1 (c ∷ templates) same h =
      (subst IsRight (sym (same (claim_name s p c.name))) h.0, All-same t t1 templates same h.1)

  checked :
      (name : Bytes) (rest : M Bool) (r : Result Claim) (t : Trace)
      → IsRight r
      → (rest t).0 ≡ ok true
      → (check_claim w s p name rest r t).0 ≡ ok true
  checked name rest (ok c) t h k = rw h k
  checked name rest (err e) t h k = rw h k

  -- Where every claim is right, the loop of PodPVCsMatchRetentionPolicy says so.
  claims_match-right :
      (templates : List Claim) (t : Trace)
      → AllRight t templates
      → (claims_match w s p templates t).0 ≡ ok true
  unfolding claims_match AllRight
  claims_match-right [] t h = refl
  claims_match-right (c ∷ templates) t h =
      let name = claim_name s p c.name in
      let t0 = get_claim s.namespace name ∷ t in
      checked name (claims_match w s p templates) (read t name) t0 h.0
        (claims_match-right templates t0 (All-same t t0 templates (after_read t name) h.1))

  then_ok :
      (k : M (Unit {0})) (r : Result (Unit {0}) × Trace)
      → r.0 ≡ ok tt
      → ((t : Trace) → (k t).0 ≡ ok tt)
      → (then_run (λ _. k) r).0 ≡ ok tt
  then_ok k (ok _, t) h step = step t
  then_ok k (err e, t) h step = h

  -- Updates of claims are accepted, and a claim that cannot be read is missing.
  module _ (accepts : (t : Trace) (c : Claim) → w.write t (update_claim c) ≡ none)
      (only_missing : (t : Trace) (name : Bytes) (e : Error)
        → read t name ≡ err e
        → e.not_found ≡ true) where
    refresh_claim_ok :
        (name : Bytes) (r : Result Claim) (t : Trace)
        → ((e : Error) → r ≡ err e → e.not_found ≡ true)
        → (refresh_claim w s p name r t).0 ≡ ok tt
    refresh_claim_ok name (err e) t missing = rw (missing e refl) refl
    refresh_claim_ok name (ok c) t missing =
        elim (Bool-cases (is_claim_owner_up_to_date c.owner_refs s p)) [
          | inl h ↦ rw h refl
          | inr h ↦ rw h (rw (accepts t (renewed c)) refl)
        ]

    refresh_claims_ok :
        (templates : List Claim) (t : Trace) → (refresh_claims w s p templates t).0 ≡ ok tt
    unfolding refresh_claims
    refresh_claims_ok [] t = refl
    refresh_claims_ok (c ∷ templates) t =
        let name = claim_name s p c.name in
        let t0 = get_claim s.namespace name ∷ t in
        then_ok (refresh_claims w s p templates) (refresh_claim w s p name (read t name) t0)
          (refresh_claim_ok name (read t name) t0 (only_missing t name))
          (refresh_claims_ok templates)

    matched :
        (r : Result (Unit {0}) × Trace)
        → r.0 ≡ ok tt
        → Ensures (λ t1. AllRight t1 s.volume_claim_templates) r
        → (claims_match w s p s.volume_claim_templates r.1).0 ≡ ok true
    matched (ok _, t) h right = claims_match-right s.volume_claim_templates t right
    matched (err e, t) h right = cc h

    -- Suppose that nobody else writes the claims, that updates of claims are accepted and that no
    -- read of one fails for another reason than that it is missing. Suppose that the NodeSet and
    -- the Pod have different UIDs and that in each claim the references with the UID of one of
    -- them are those that name it. Then UpdatePodPVCsForRetentionPolicy returns no error, and
    -- PodPVCsMatchRetentionPolicy, asked afterwards, returns true.
    pub update_pod_pvcs-mends :
        (t : Trace)
        → ((name : Bytes) → IsTidy (read t name))
        → let after = update_pod_pvcs_for_retention_policy w s p t in
          (after.0 ≡ ok tt) × ((pod_pvcs_match_retention_policy w s p after.1).0 ≡ ok true)
    unfolding update_pod_pvcs_for_retention_policy pod_pvcs_match_retention_policy
    update_pod_pvcs-mends t tidy =
        let templates = s.volume_claim_templates in
        let done = refresh_claims_ok templates t in
        let right =
          Ensures-map (λ t1. Progress t t1 × AllRight t1 templates) (λ t1. AllRight t1 templates)
            (refresh_claims w s p templates t) (refresh_claims-Mended templates t tidy)
            (λ t1 h. h.1) in
        (done, matched (refresh_claims w s p templates t) done right)
