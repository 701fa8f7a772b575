-- ===== src/Examples/Revisions.antt =====
-- Examples of the revision history (internal/controller/nodeset/nodeset_history.go).
use gce_hackathon.Prelude.{
  pos, ◌≡◌, refl, Option, some, none, false, not, List, [], ◌∷◌, keep, codes, lookup, bytes_eq,
  if◌then◌else◌,
}
use gce_hackathon.Objects.{Revision}
use gce_hackathon.Api.{Error, ok, err, get_node, M, return, throw}
use gce_hackathon.NodeSets.Rolling.{get_revision}
use gce_hackathon.NodeSets.History.{live_names, revisions_to_delete, truncate_history}
use gce_hackathon.NodeSets.History.Limit.{Truncates, Deletes, is_used, truncate_history-Truncates}
use gce_hackathon.Examples.{two_pods}

abbrev revisions : List Revision
revisions =
    record { name = codes "first"; revision = 0; raw = codes "spec 0" }
    ∷ record { name = codes "older"; revision = 1; raw = codes "spec 1" }
    ∷ record { name = codes "old"; revision = 2; raw = codes "spec 2" }
    ∷ record { name = codes "new"; revision = 3; raw = codes "spec 3" }
    ∷ []

abbrev panic : Error
panic = record {
  text = codes "slice bounds out of range";
  not_found = false;
  already_exists = false;
  conflict = false;
  namespace_terminating = false;
}

-- A deletion that fails for the revision by the name "older".
abbrev delete_or_panic : Revision → M (Unit {0})
delete_or_panic r t =
    if bytes_eq r.name (codes "older") then throw panic t else (ok tt, get_node r.name ∷ t)

abbrev newest : Option Revision
newest = some (record { name = codes "new"; revision = 3; raw = codes "spec 3" })

truncate_history-Truncates_example :
    (deleted : List Revision) × Truncates 0
      (keep (λ r. not (is_used none newest two_pods r)) revisions)
      deleted
    × Deletes delete_or_panic deleted []
        (truncate_history (return two_pods) delete_or_panic panic (pos 0) revisions none newest [])
truncate_history-Truncates_example =
    truncate_history-Truncates (return two_pods) delete_or_panic panic 0 revisions none newest []
      {pods = two_pods} {t1 = []} refl

-- Of the four revisions one is the updated one and one is that of the Pods; the deletion of the second
-- of the others fails.
stopped_by_panic :
    truncate_history (return two_pods) delete_or_panic panic (pos 0) revisions none newest []
    ≡ (err panic, get_node (codes "first") ∷ [])
unfolding truncate_history live_names revisions_to_delete get_revision lookup bytes_eq
stopped_by_panic = refl
