-- ===== src/Server/Validation.antt =====
-- `validate_scenario`. A `BTreeSet` is a list of its members. The twin's own validation comes with
-- its errors and warnings, from the document as JSON, or with an error where serde refuses it.
pub mod Sound
use agent_sandbox.Common.Text.Scan.{is_whitespace}
use agent_sandbox.Common.Int.{pos, negsuc}
use agent_sandbox.Server.Faults.{or_blank}
use agent_sandbox.Server.Scenario.{
  FaultRule, ScenarioDocument, F32, TimelineEvent, number, infinite, minus_infinite, nan,
}
use Prim.Native.Char.{code}
use agent_sandbox.Common.{
  String, ℕ, List, Bool, if◌then◌else◌, leb, true, any, ◌∷◌, str_eq, ◌++◌, ◌<>◌, ◌&&◌, [], ◌||◌, [],
  ◌==◌, Result, Option, false, false, not, to_string, ltb, map, some, ok, ◌+◌, none, err, ◌^◌,
}

-- `s.trim().is_empty()`
unfoldable pub is_blank : String → Bool
is_blank String.[] = true
is_blank (String.◌∷◌ c s) = is_whitespace (code c) && is_blank s

abbrev pub member : String → List String → Bool
member x xs = any (λ y. str_eq y x) xs

-- The loops over actors, faults and assertions: the identifiers seen so far and the errors.
abbrev pub check_id : String → String → List String → List String × List String
check_id what id seen =
    if is_blank id
    then (seen, (what <> " id must not be empty") ∷ [])
    else (if member id seen
        then (seen, ("duplicate " <> what <> " id `" <> id <> "`") ∷ [])
        else (id ∷ seen, []))

unfoldable pub check_ids : String → List String → List String → List String × List String
check_ids what [] seen = (seen, [])
check_ids what (id ∷ ids) seen =
    let (now, errors) = check_id what id seen in
    let (later, more) = check_ids what ids now in (later, errors ++ more)

-- `(0.0..=1.0).contains(&p)`
abbrev pub is_probability : F32 → Bool
is_probability (number (pos m) k) = leb m (2 ^ k)
is_probability (number (negsuc m) k) = false
is_probability infinite = false
is_probability minus_infinite = false
is_probability nan = false

abbrev pub error_unless : Bool → String → List String
error_unless true text = []
error_unless false text = text ∷ []

abbrev pub is_known : List String → Option String → Bool
is_known actor_ids none = true
is_known actor_ids (some actor_id) = member actor_id actor_ids

abbrev pub check_fault : List String → FaultRule → List String
check_fault actor_ids fault =
    error_unless (is_probability fault.when.probability)
      ("fault `" <> fault.id <> "` probability must be between 0.0 and 1.0")
    ++ error_unless (not (is_blank fault.when.endpoint))
        ("fault `" <> fault.id <> "` endpoint must not be empty")
    ++ error_unless (is_known actor_ids fault.when.actor_id) (
        "fault `"
        <> fault.id
        <> "` references unknown actor `"
        <> or_blank fault.when.actor_id
        <> "`")

-- The loop over the faults.
unfoldable pub check_faults : List String → List FaultRule → List String → List String
check_faults actor_ids [] seen = []
check_faults actor_ids (fault ∷ faults) seen =
    let (now, errors) = check_id "fault" fault.id seen in
    errors ++ check_fault actor_ids fault ++ check_faults actor_ids faults now

module _ {V : Type 0} where
  -- The loop over the timeline: its errors, and its warnings.
  unfoldable pub check_timeline : List String → ℕ → List (TimelineEvent V) → List String
  check_timeline actor_ids idx [] = []
  check_timeline actor_ids idx (event ∷ events) =
      error_unless (member event.actor_id actor_ids) (
        "timeline event "
        <> to_string idx
        <> " references unknown actor `"
        <> event.actor_id
        <> "`")
      ++ check_timeline actor_ids (idx + 1) events

  unfoldable pub order_warnings : ℕ → ℕ → List (TimelineEvent V) → List String
  order_warnings idx last_at_ms [] = []
  order_warnings idx last_at_ms (event ∷ events) =
      error_unless (not (ltb 0 idx && ltb event.at_ms last_at_ms))
        "timeline is not sorted by `at_ms`; runtime will sort it"
      ++ order_warnings (idx + 1) event.at_ms events

pub record ScenarioValidationResult : Type 0 where
  pub valid : Bool
  pub errors : List String
  pub warnings : List String

abbrev pub twin_errors : Result String (List String × List String) → List String
twin_errors (ok (errors, warnings)) = errors
twin_errors (err e) = ("failed to serialize scenario for domain validation: " <> e) ∷ []

abbrev pub twin_warnings : Result String (List String × List String) → List String
twin_warnings (ok (errors, warnings)) = warnings
twin_warnings (err e) = []

abbrev pub has_errors : List String → Bool
has_errors [] = false
has_errors (e ∷ es) = true

module _ {V : Type 0}
    (validate : ScenarioDocument V → Result String (List String × List String)) where
  abbrev pub actor_ids : ScenarioDocument V → List String × List String
  actor_ids doc = check_ids "actor" (map (λ a. a.id) doc.actors) []

  abbrev pub all_errors : ScenarioDocument V → List String
  all_errors doc =
      error_unless (ltb 0 doc.version) "version must be >= 1"
      ++ error_unless (not (is_blank doc.name)) "name must not be empty"
      ++ (actor_ids doc).1
      ++ check_faults (actor_ids doc).0 doc.faults []
      ++ (check_ids "assertion" (map (λ a. a.id) doc.assertions) []).1
      ++ check_timeline (actor_ids doc).0 0 doc.timeline
      ++ twin_errors (validate doc)

  unfoldable pub validate_scenario : ScenarioDocument V → ScenarioValidationResult
  validate_scenario doc = record {
    valid = not (has_errors (all_errors doc));
    errors = all_errors doc;
    warnings = order_warnings 0 0 doc.timeline ++ twin_warnings (validate doc);
  }
