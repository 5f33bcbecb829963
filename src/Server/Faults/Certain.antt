-- ===== src/Server/Faults/Certain.antt =====
-- Which fault a request meets.
use agent_sandbox.Server.Scenario.{FaultRule, FaultWhen}
use agent_sandbox.Server.Types.{AppState}
use agent_sandbox.Server.Faults.{
  fires, evaluate_fault, deterministic_probability, concerns, chance, covers, or_blank,
}
use agent_sandbox.Common.{
  Bool, ℕ, String, List, ◌≡◌, find, Option, some, true, ◌++◌, arith, ◌∷◌, ◌∷◌, ◌≢◌, [], none, ◌+◌,
  ◌%◌, u64_mod, inl, inr, All, is_some_text, false, eq_iff, ◌⊎◌, All-mono, Bool-cases, ap, refl,
  ◌∙◌, eq_refl,
}

-- The rule is for this endpoint and, if it names an actor, for this actor.
pub record IsAbout (endpoint : String) (actor_id : Option String) (when : FaultWhen) : Type 0 where
  pub same_endpoint : when.endpoint ≡ endpoint
  pub same_actor : (a : String) → when.actor_id ≡ some a → actor_id ≡ some a

-- `find` passes over what fails the test, and ends at the first that passes it.
find_cases :
    {A : Type 0} (p : A → Bool) (xs : List A)
    → ((find p xs ≡ none) × All (λ x. p x ≡ false) xs)
      ⊎ ((before : List A) × (x : A) × (after : List A) × (xs ≡ before ++ x ∷ after)
          × (find p xs ≡ some x)
          × (p x ≡ true)
          × All (λ y. p y ≡ false) before)
find_cases p [] = inl (refl, tt)
find_cases p (x ∷ xs) = elim (Bool-cases (p x)) [
  | inl here ↦ inr ([], x, xs, refl, rw here refl, here, tt)
  | inr not_here ↦ elim (find_cases p xs) [
    | inl (missed, fail) ↦ inl (rw not_here missed, (not_here, fail))
    | inr (before, y, after, parts, found, passes, fail) ↦
        inr
          (x ∷ before, y, after, ap (λ r. x ∷ r) parts, rw not_here found, passes, (not_here, fail))
  ]
]

module _ (hash : ℕ → ℕ → String → String → String → ℕ) (endpoint : String)
    (actor_id : Option String) where
  is_some_text_lem : (o : Option String) (a : String) → is_some_text o a ≡ true → o ≡ some a
  is_some_text_lem none a h = absurd (ground arith)
  is_some_text_lem (some b) a h = ground (arith, eq_iff b a)

  concerns-IsAbout :
      (when : FaultWhen) → concerns when endpoint actor_id ≡ true → IsAbout endpoint actor_id when
  concerns-IsAbout when h = record {
    same_endpoint = ground (arith, eq_iff when.endpoint endpoint);
    same_actor = named when.actor_id (ground arith);
  }
    where
      named :
          (o : Option String)
          → (elim o [ none ↦ true | some expected ↦ is_some_text actor_id expected ]) ≡ true
          → (a : String) → o ≡ some a
          → actor_id ≡ some a
      named none h a e = absurd (ground arith)
      named (some b) h a e = is_some_text_lem actor_id b h ∙ e

  IsAbout-concerns :
      (when : FaultWhen) → IsAbout endpoint actor_id when → concerns when endpoint actor_id ≡ true
  IsAbout-concerns when about =
      ground (arith, about.same_endpoint, eq_refl endpoint, named when.actor_id about.same_actor)
    where
      named :
          (o : Option String)
          → ((a : String) → o ≡ some a → actor_id ≡ some a)
          → (elim o [ none ↦ true | some expected ↦ is_some_text actor_id expected ]) ≡ true
      named none h = refl
      named (some b) h = rw (h b refl) (ground (arith, eq_refl b))

  fires-certain :
      (seed index : ℕ) (rule : FaultRule)
      → fires hash seed index endpoint actor_id rule ≡ false
      → IsAbout endpoint actor_id rule.when
      → chance rule.when.probability ≢ some (1, 0)
  unfolding fires deterministic_probability
  fires-certain seed index rule missed about certain =
      let concerned = IsAbout-concerns rule.when about in
      let covered : covers (some (1, 0))
            (hash seed index endpoint (or_blank actor_id) rule.id % 10000)
          ≡ true =
        ground arith in
      ground (arith, concerned, certain, covered)

  fires-possible :
      (seed index : ℕ) (rule : FaultRule)
      → fires hash seed index endpoint actor_id rule ≡ true
      → IsAbout endpoint actor_id rule.when × (chance rule.when.probability ≢ none)
  unfolding fires
  fires-possible seed index rule h =
      (concerns-IsAbout rule.when (ground arith), λ e. ground (arith, e))

  -- The rule is not one that must be returned: it is not about the request, or not certain.
  abbrev pub MayPass : FaultRule → Type 0
  MayPass rule = IsAbout endpoint actor_id rule.when → chance rule.when.probability ≢ some (1, 0)

  -- Either no fault is returned, and no rule of the list is about the request with a probability of
  -- at least 1; or a rule of the list is returned that is about the request and whose probability is
  -- above 0, and no rule before it is about the request with a probability of at least 1.
  pub evaluate_fault-certain :
      {V T R : Type 0} (s : AppState V T FaultRule R)
      → (((evaluate_fault hash endpoint actor_id s).0 ≡ none) × All MayPass s.scenario.faults)
        ⊎ ((before : List FaultRule) × (hit : FaultRule) × (after : List FaultRule)
            × (s.scenario.faults ≡ before ++ hit ∷ after)
            × ((evaluate_fault hash endpoint actor_id s).0 ≡ some hit)
            × IsAbout endpoint actor_id hit.when
            × (chance hit.when.probability ≢ none)
            × All MayPass before)
  unfolding evaluate_fault
  evaluate_fault-certain s =
      let index = (s.scenario.decision_index + 1) % u64_mod in
      let seed = s.runtime.kernel.config.seed in
      elim (find_cases (fires hash seed index endpoint actor_id) s.scenario.faults) [
        | inl (missed, fail) ↦
            inl (missed, All-mono s.scenario.faults (λ r f. fires-certain seed index r f) fail)
        | inr (before, hit, after, parts, found, passes, fail) ↦
            let (about, possible) = fires-possible seed index hit passes in
            inr (
              before,
              hit,
              after,
              parts,
              found,
              about,
              possible,
              All-mono before (λ r f. fires-certain seed index r f) fail,
            )
      ]
