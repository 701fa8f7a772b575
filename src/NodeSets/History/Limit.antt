-- ===== src/NodeSets/History/Limit.antt =====
-- What truncateHistory (internal/controller/nodeset/nodeset_history.go) deletes.
use gce_hackathon.Prelude.{
  ℕ, ◌-◌, ◌≤◌, ◌<◌, min, pos, ◌≡◌, refl, subst, Bool, false, not, ◌||◌, inl, inr, Option, none,
  some, List, [], ◌∷◌, ◌++◌, map, keep, any, take, drop, length, leb, Bytes, bytes_eq, lookup,
  or_empty, All, Bool-cases, take-append-drop, length-drop, arith,
}
use gce_hackathon.Objects.{Pod, Revision}
use gce_hackathon.Objects.Keys.{label_revision_hash}
use gce_hackathon.Api.{Error, Result, ok, err, Trace, M, then_run}
use gce_hackathon.NodeSets.Rolling.{get_revision}
use gce_hackathon.NodeSets.History.{
  live_names, delete_revisions, truncate_history, is_live, historic, revisions_to_delete,
  next_revision,
}

-- A revision is in use if it has the name of the current or the updated one, or is named by the label
-- of a Pod.
abbrev pub has_name : Option Revision → Revision → Bool
has_name none r = false
has_name (some c) r = bytes_eq c.name r.name

abbrev pub is_used : Option Revision → Option Revision → List Pod → Revision → Bool
is_used current update pods r =
    has_name current r
    || (has_name update r
        || any (λ p. bytes_eq (or_empty (lookup label_revision_hash p.labels)) r.name) pods)

-- What is deleted is the first part of the revisions that are not in use, and of these at most the
-- limit is left.
pub record Truncates (limit : ℕ) (unused deleted : List Revision) : Type 0 where
  pub kept : List Revision
  pub parts : deleted ++ kept ≡ unused
  pub within : length kept ≡ min limit (length unused)

-- The deletions of a list are requested in order, up to the first one that fails; its error is the
-- result.
pub data Deletes (delete_revision : Revision → M (Unit {0}))
    : List Revision → Trace → Result (Unit {0}) × Trace → Type 0 where
  none_left : (t : Trace) → Deletes delete_revision [] t (ok tt, t)
  fails :
      {r : Revision} {rs : List Revision} {t t1 : Trace} {e : Error}
      → delete_revision r t ≡ (err e, t1)
      → Deletes delete_revision (r ∷ rs) t (err e, t1)
  goes_on :
      {r : Revision} {rs : List Revision} {t t1 : Trace} {out : Result (Unit {0}) × Trace}
      → delete_revision r t ≡ (ok tt, t1)
      → Deletes delete_revision rs t1 out
      → Deletes delete_revision (r ∷ rs) t out

any-names :
    (pods : List Pod) (name : Bytes)
    → any (λ n. bytes_eq n name) (map (λ p. get_revision p.labels) pods)
      ≡ any (λ p. bytes_eq (or_empty (lookup label_revision_hash p.labels)) name) pods
unfolding get_revision
any-names [] name = refl
any-names (p ∷ pods) name = rw (any-names pods name) refl

is_live-is_used :
    (current update : Option Revision) (pods : List Pod) (r : Revision)
    → is_live (live_names current update pods) r ≡ is_used current update pods r
unfolding live_names
is_live-is_used none none pods r = any-names pods r.name
is_live-is_used none (some u) pods r = rw (any-names pods r.name) refl
is_live-is_used (some c) none pods r = rw (any-names pods r.name) refl
is_live-is_used (some c) (some u) pods r = rw (any-names pods r.name) refl

historic-unused :
    (current update : Option Revision) (pods : List Pod) (revisions : List Revision)
    → historic (live_names current update pods) revisions
      ≡ keep (λ r. not (is_used current update pods r)) revisions
historic-unused current update pods [] = refl
historic-unused current update pods (r ∷ rs) =
    rw (is_live-is_used current update pods r, historic-unused current update pods rs) refl

revisions_to_delete-Truncates :
    (limit : ℕ) (live : List Bytes) (revisions : List Revision)
    → (deleted : List Revision) × (revisions_to_delete (pos limit) live revisions ≡ some deleted)
      × Truncates limit (historic live revisions) deleted
unfolding revisions_to_delete
revisions_to_delete-Truncates limit live revisions =
    let history = historic live revisions in
    elim (Bool-cases (leb (length history) limit)) [
      | inl short ↦
          rw short
            ([], refl, record { kept = history; parts = refl; within = ground (arith, short) })
      | inr long ↦ rw long (
        take (length history - limit) history,
        refl,
        record {
          kept = drop (length history - limit) history;
          parts = take-append-drop (length history - limit) history;
          within = ground (arith, long, length-drop (length history - limit) history);
        },
      )
    ]

module _ (list_pods : M (List Pod)) (delete_revision : Revision → M (Unit {0}))
    (out_of_range : Error) where
  delete_one-Deletes :
      (r : Revision) (rs : List Revision) (t : Trace)
      → ((t1 : Trace)
          → Deletes delete_revision rs t1
              (delete_revisions list_pods delete_revision out_of_range rs t1))
      → (out : Result (Unit {0}) × Trace) → delete_revision r t ≡ out
      → Deletes delete_revision
          (r ∷ rs)
          t
          (then_run (λ _. delete_revisions list_pods delete_revision out_of_range rs) out)
  delete_one-Deletes r rs t others (ok tt, t1) h = goes_on h (others t1)
  delete_one-Deletes r rs t others (err e, t1) h = fails h

  delete_revisions-Deletes :
      (rs : List Revision) (t : Trace)
      → Deletes delete_revision rs t (delete_revisions list_pods delete_revision out_of_range rs t)
  delete_revisions-Deletes [] t = none_left t
  delete_revisions-Deletes (r ∷ rs) t =
      delete_one-Deletes r rs t (delete_revisions-Deletes rs) (delete_revision r t) refl

  -- If the Pods can be listed and the limit is not negative, truncateHistory requests, in order and
  -- up to the first one that fails, the deletions of the first of the revisions that are not in use
  -- (by the names of the current and the updated revision and by the labels of the Pods), and leaves
  -- the last of them: as many as the limit, or all where they are fewer.
  pub truncate_history-Truncates :
      (limit : ℕ) (revisions : List Revision) (current update : Option Revision) (t : Trace)
      {pods : List Pod} {t1 : Trace}
      → list_pods t ≡ (ok pods, t1)
      → (deleted : List Revision) × Truncates limit
          (keep (λ r. not (is_used current update pods r)) revisions)
          deleted
        × Deletes delete_revision deleted t1 (
            truncate_history list_pods delete_revision out_of_range
              (pos limit)
              revisions
              current
              update
              t)
  unfolding truncate_history
  truncate_history-Truncates limit revisions current update t {pods} {t1} read =
      let (deleted, found, truncates) =
        revisions_to_delete-Truncates limit (live_names current update pods) revisions in
      (
        deleted,
        subst (λ unused. Truncates limit unused deleted)
            (historic-unused current update pods revisions) truncates,
        rw (read, found) (delete_revisions-Deletes deleted t1),
      )

-- The numbers do not descend.
abbrev pub IsByNumber : List Revision → Type 0
IsByNumber [] = Unit
IsByNumber (r ∷ rs) = All (λ x. r.revision ≤ x.revision) rs × IsByNumber rs

-- Of revisions in the order of their numbers, nextRevision is greater than the number of each.
pub next_revision-greater :
    (revisions : List Revision)
    → IsByNumber revisions
    → All (λ r. r.revision < next_revision revisions) revisions
unfolding next_revision
next_revision-greater [] h = tt
next_revision-greater (r ∷ []) h = (omega arith, tt)
next_revision-greater (r ∷ r' ∷ rs) h =
    let rest = next_revision-greater (r' ∷ rs) h.1 in (omega (arith, rest.0, h.0.0), rest)
