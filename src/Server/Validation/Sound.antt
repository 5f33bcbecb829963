-- ===== src/Server/Validation/Sound.antt =====
-- What a document that passes the validation is like.
use agent_sandbox.Server.Scenario.{FaultRule, ScenarioDocument, TimelineEvent}
use agent_sandbox.Server.Validation.{
  check_ids, has_errors, is_blank, check_id, error_unless, member, check_timeline, check_faults,
  check_fault, is_probability, is_known, validate_scenario, twin_errors, actor_ids, all_errors,
}
use agent_sandbox.Common.{
  List, Bool, String, ◌∷◌, ◌≡◌, ◌++◌, ◌||◌, not, false, true, [], Bool-cases, arith, refl, sym, inl,
  ap, inr, map, ◌≤◌, ℕ, All, ◌+◌, Option-cases, Result, ltb, All-mono,
}

has_errors-append : (xs ys : List String) → has_errors (xs ++ ys) ≡ (has_errors xs || has_errors ys)
has_errors-append [] ys = refl
has_errors-append (x ∷ xs) ys = refl

silent-append :
    (xs ys : List String)
    → has_errors (xs ++ ys) ≡ false
    → (has_errors xs ≡ false) × (has_errors ys ≡ false)
silent-append [] ys h = (refl, h)
silent-append (x ∷ xs) ys h = absurd (ground arith)

silent-empty : (xs : List String) → has_errors xs ≡ false → xs ≡ []
silent-empty [] h = refl
silent-empty (x ∷ xs) h = absurd (ground arith)

silent-error_unless :
    (b : Bool) (text : String) → has_errors (error_unless b text) ≡ false → b ≡ true
silent-error_unless true text h = refl
silent-error_unless false text h = absurd (ground arith)

negated : (b : Bool) → not b ≡ true → b ≡ false
negated true h = absurd (ground arith)
negated false h = refl

or_nothing : (b : Bool) → (b || false) ≡ true → b ≡ true
or_nothing true h = refl
or_nothing false h = absurd (ground arith)

positive_of : (n : ℕ) → ltb 0 n ≡ true → 1 ≤ n
positive_of n h = ground arith

has_errors-valid : (es : List String) → not (has_errors es) ≡ true → has_errors es ≡ false
has_errors-valid [] h = refl
has_errors-valid (e ∷ es) h = absurd (ground arith)

-- Identifiers that are not blank, and differ from one another and from those seen.
abbrev pub AreDistinct : List String → List String → Type 0
AreDistinct [] seen = Unit
AreDistinct (id ∷ ids) seen =
    (is_blank id ≡ false) × (member id seen ≡ false) × AreDistinct ids (id ∷ seen)

check_id-silent :
    (what id : String) (seen : List String)
    → has_errors (check_id what id seen).1 ≡ false
    → (is_blank id ≡ false) × (member id seen ≡ false) × ((check_id what id seen).0 ≡ id ∷ seen)
check_id-silent what id seen h = elim (Bool-cases (is_blank id)) [
  | inl blank ↦ absurd (ground arith)
  | inr fine ↦ elim (Bool-cases (member id seen)) [
    | inl double ↦ absurd (ground arith)
    | inr new ↦ (fine, new, rw (fine, new) refl)
  ]
]

check_ids-AreDistinct :
    (what : String) (ids seen : List String)
    → has_errors (check_ids what ids seen).1 ≡ false
    → AreDistinct ids seen
      × ((x : String)
          → member x (check_ids what ids seen).0 ≡ true
          → (member x ids || member x seen) ≡ true)
unfolding check_ids
check_ids-AreDistinct what [] seen h = (tt, λ x e. e)
check_ids-AreDistinct what (id ∷ ids) seen h =
    let now = (check_id what id seen).0 in
    let split = has_errors-append (check_id what id seen).1 (check_ids what ids now).1 in
    let (fine, new, same) = check_id-silent what id seen (ground arith) in
    let (later, known) = check_ids-AreDistinct what ids now (ground arith) in
    ((fine, new, rw (sym same) later), λ x e. ground (arith, known x e, ap (member x) same))

-- A fault with a probability, an endpoint, and an actor from the list, if it names one.
pub record IsSound (actors : List String) (fault : FaultRule) : Type 0 where
  pub probability : is_probability fault.when.probability ≡ true
  pub endpoint : is_blank fault.when.endpoint ≡ false
  pub actor : is_known actors fault.when.actor_id ≡ true

check_fault-IsSound :
    (actors : List String) (fault : FaultRule)
    → has_errors (check_fault actors fault) ≡ false
    → IsSound actors fault
check_fault-IsSound actors fault h = elim (Bool-cases (is_probability fault.when.probability)) [
  | inr wrong ↦ absurd (ground arith)
  | inl right ↦ elim (Bool-cases (is_blank fault.when.endpoint)) [
    | inl blank ↦ absurd (ground arith)
    | inr named ↦ elim (Bool-cases (is_known actors fault.when.actor_id)) [
      | inr stranger ↦ absurd (ground arith)
      | inl known ↦ record { probability = right; endpoint = named; actor = known }
    ]
  ]
]

check_faults-IsSound :
    (actors : List String) (faults : List FaultRule) (seen : List String)
    → has_errors (check_faults actors faults seen) ≡ false
    → AreDistinct (map (λ f. f.id) faults) seen × All (IsSound actors) faults
unfolding check_faults
check_faults-IsSound actors [] seen h = (tt, tt)
check_faults-IsSound actors (fault ∷ faults) seen h =
    let (now, errors) = check_id "fault" fault.id seen in
    let rest = check_faults actors faults now in
    let first = has_errors-append errors (check_fault actors fault ++ rest) in
    let second = has_errors-append (check_fault actors fault) rest in
    let (fine, new, same) = check_id-silent "fault" fault.id seen (ground arith) in
    let (later, sound) = check_faults-IsSound actors faults now (ground arith) in
    ((fine, new, rw (sym same) later), (check_fault-IsSound actors fault (ground arith), sound))

module _ {V : Type 0} where
  abbrev pub IsPlayable : List String → TimelineEvent V → Type 0
  IsPlayable actors event = member event.actor_id actors ≡ true

  check_timeline-IsPlayable :
      (actors : List String) (idx : ℕ) (events : List (TimelineEvent V))
      → has_errors (check_timeline actors idx events) ≡ false
      → All (IsPlayable actors) events
  unfolding check_timeline
  check_timeline-IsPlayable actors idx [] h = tt
  check_timeline-IsPlayable actors idx (event ∷ events) h =
      elim (Bool-cases (member event.actor_id actors)) [
        | inr stranger ↦ absurd (ground arith)
        | inl known ↦ (known, check_timeline-IsPlayable actors (idx + 1) events (ground arith))
      ]

-- The actors that a document lists.
abbrev pub listed : {V : Type 0} → ScenarioDocument V → List String
listed doc = map (λ a. a.id) doc.actors

pub record IsValid {V : Type 0} (doc : ScenarioDocument V) : Type 0 where
  pub version : 1 ≤ doc.version
  pub name : is_blank doc.name ≡ false
  pub actors : AreDistinct (listed doc) []
  pub faults : AreDistinct (map (λ f. f.id) doc.faults) []
  pub sound : All (IsSound (listed doc)) doc.faults
  pub assertions : AreDistinct (map (λ a. a.id) doc.assertions) []
  pub playable : All (IsPlayable (listed doc)) doc.timeline

IsSound-known :
    (actors others : List String)
    → ((x : String) → member x actors ≡ true → member x others ≡ true)
    → (fault : FaultRule) → IsSound actors fault
    → IsSound others fault
IsSound-known actors others known fault h = record {
  probability = h.probability;
  endpoint = h.endpoint;
  actor = elim (Option-cases fault.when.actor_id) [
    | inl nobody ↦ rw nobody refl
    | inr (actor_id, named) ↦ rw named (known actor_id (ground (arith, h.actor)))
  ];
}

-- A document that the validation calls valid has a version of at least 1 and a name; its actors,
-- faults and assertions have identifiers that are not blank and differ from one another; its faults
-- have an endpoint and a probability from 0 to 1, and like its timeline name only actors that it
-- lists; and the twin has no error in it.
pub validate_scenario-IsValid :
    {V : Type 0} (validate : ScenarioDocument V → Result String (List String × List String))
    (doc : ScenarioDocument V)
    → (validate_scenario validate doc).valid ≡ true
    → IsValid doc × (twin_errors (validate doc) ≡ [])
unfolding validate_scenario
validate_scenario-IsValid validate doc h =
    let a = actor_ids validate doc in
    let e7 = twin_errors (validate doc) in
    let e6 = check_timeline a.0 0 doc.timeline in
    let e5 = (check_ids "assertion" (map (λ r. r.id) doc.assertions) []).1 in
    let e4 = check_faults a.0 doc.faults [] in
    let e2 = error_unless (not (is_blank doc.name)) "name must not be empty" in
    let e1 = error_unless (ltb 0 doc.version) "version must be >= 1" in
    let none_at_all = has_errors-valid (all_errors validate doc) h in
    let (r6, h7) = silent-append (e1 ++ e2 ++ a.1 ++ e4 ++ e5 ++ e6) e7 none_at_all in
    let (r5, h6) = silent-append (e1 ++ e2 ++ a.1 ++ e4 ++ e5) e6 r6 in
    let (r4, h5) = silent-append (e1 ++ e2 ++ a.1 ++ e4) e5 r5 in
    let (r3, h4) = silent-append (e1 ++ e2 ++ a.1) e4 r4 in
    let (r2, h3) = silent-append (e1 ++ e2) a.1 r3 in
    let (h1, h2) = silent-append e1 e2 r2 in
    let (actors, known) = check_ids-AreDistinct "actor" (listed doc) [] h3 in
    let (faults, sound) = check_faults-IsSound a.0 doc.faults [] h4 in
    let (assertions, others) =
      check_ids-AreDistinct "assertion" (map (λ r. r.id) doc.assertions) [] h5 in
    let playable = check_timeline-IsPlayable a.0 0 doc.timeline h6 in
    let to_listed : (x : String) → member x a.0 ≡ true → member x (listed doc) ≡ true =
      λ x m. or_nothing (member x (listed doc)) (known x m) in
    (
      record {
        version =
            positive_of doc.version
              (silent-error_unless (ltb 0 doc.version) "version must be >= 1" h1);
        name =
            negated (is_blank doc.name)
              (silent-error_unless (not (is_blank doc.name)) "name must not be empty" h2);
        actors = actors;
        faults = faults;
        sound = All-mono doc.faults (IsSound-known a.0 (listed doc) to_listed) sound;
        assertions = assertions;
        playable = All-mono doc.timeline (λ event. to_listed event.actor_id) playable;
      },
      silent-empty e7 h7,
    )
