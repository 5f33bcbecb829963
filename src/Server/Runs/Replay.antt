-- ===== src/Server/Runs/Replay.antt =====
-- A replay matches exactly if the two runs agree in what `is_deterministic_match` is to compare.
use agent_sandbox.Server.Runs.{
  is_empty, mismatches, max, AssertionResult, TimelineOutcome, RunArtifact, same_flag, same_text,
  is_deterministic_match, same_outcome, same_assertion, diff_run_artifacts, assertion_label,
}
use agent_sandbox.Common.{
  ℕ, Option, Bool, none, ◌+◌, ◌≡◌, true, some, false, suc, arith, ◌↔◌, List, zero, get_elem?, ◌∷◌,
  refl, ◌&&◌, length, map, [], String, sym, eq_iff, ap,
}

mismatches-shift :
    {B C : Type 0} (f g : ℕ → Bool) (l : ℕ → B) (m : ℕ → C) (i j n : ℕ)
    → ((k : ℕ) → f (i + k) ≡ g (j + k))
    → is_empty (mismatches f l i n) ≡ is_empty (mismatches g m j n)
mismatches-shift f g l m i j zero agree = refl
mismatches-shift f g l m i j (suc n) agree =
    let next : (k : ℕ) → f (i + 1 + k) ≡ g (j + 1 + k) = λ k. grind (arith, agree (k + 1)) in
    let here : f i ≡ g j = grind (arith, agree 0) in
    ground (arith, here, mismatches-shift f g l m (i + 1) (j + 1) n next)

one_plus : (k : ℕ) → 1 + k ≡ suc k
one_plus k = omega arith

zero_plus : (k : ℕ) → 0 + k ≡ k
zero_plus k = omega arith

-- Where two lists differ in `key`, the loop finds an index.
module _ {A K B : Type 0} (same : Option A → Option A → Bool) (key : A → K) (label : ℕ → B)
    (ends : same none none ≡ true) (short : (x : A) → same none (some x) ≡ false)
    (long : (x : A) → same (some x) none ≡ false)
    (keyed : (x y : A) → (same (some x) (some y) ≡ true) ↔ (key x ≡ key y)) where
  abbrev compared : List A → List A → Bool
  compared xs ys = is_empty (
      mismatches (λ i. same (get_elem? xs i) (get_elem? ys i)) label 0
        (max (length xs) (length ys)))

  compared-cons :
      (x y : A) (xs ys : List A)
      → compared (x ∷ xs) (y ∷ ys) ≡ (same (some x) (some y) && compared xs ys)
  compared-cons x y xs ys =
      let shift =
        mismatches-shift (λ i. same (get_elem? (x ∷ xs) i) (get_elem? (y ∷ ys) i))
          (λ i. same (get_elem? xs i) (get_elem? ys i)) label label 1 0
          (max (length xs) (length ys)) (λ k. rw (one_plus k, zero_plus k) refl) in
      ground (arith, shift)

  compared-map : (xs ys : List A) → (compared xs ys ≡ true) ↔ (map key xs ≡ map key ys)
  compared-map [] [] = (λ h. refl, λ h. refl)
  compared-map [] (y ∷ ys) = (λ h. absurd (ground (arith, short y)), λ h. absurd (ground arith))
  compared-map (x ∷ xs) [] = (λ h. absurd (ground (arith, long x)), λ h. absurd (ground arith))
  compared-map (x ∷ xs) (y ∷ ys) =
      let (to, from) = compared-map xs ys in
      let (to_key, from_key) = keyed x y in
      let split = compared-cons x y xs ys in
      (λ h. ground (arith, split, to, to_key), λ h. ground (arith, split, from, from_key))

abbrev pub verdict : AssertionResult → String × Bool
verdict x = (x.id, x.passed)

abbrev pub trace : TimelineOutcome → String × String × Option String
trace x = (x.endpoint, x.outcome, x.error)

same_flag_iff : (a b : Bool) → (same_flag a b ≡ true) ↔ (a ≡ b)
same_flag_iff true b = (λ h. sym h, λ h. sym h)
same_flag_iff false b = (λ h. ground arith, λ h. ground arith)

same_text_iff : (o p : Option String) → (same_text o p ≡ true) ↔ (o ≡ p)
same_text_iff none none = (λ h. refl, λ h. refl)
same_text_iff none (some t) = (λ h. absurd (ground arith), λ h. absurd (ground arith))
same_text_iff (some s) none = (λ h. absurd (ground arith), λ h. absurd (ground arith))
same_text_iff (some s) (some t) = (λ h. ground (arith, eq_iff t s), λ h. ground (arith, eq_iff t s))

verdict_iff :
    (x y : AssertionResult) → (same_assertion (some x) (some y) ≡ true) ↔ (verdict x ≡ verdict y)
verdict_iff x y =
    let (to, from) = same_flag_iff x.passed y.passed in
    (
      λ h.
          let ids : x.id ≡ y.id = ground (arith, eq_iff x.id y.id) in
          let flags : x.passed ≡ y.passed = ground (arith, to) in rw (ids, flags) refl,
      λ h.
          let ids : x.id ≡ y.id = ap (λ p. p.0) h in
          let flags : x.passed ≡ y.passed = ap (λ p. p.1) h in
          ground (arith, eq_iff x.id y.id, from flags),
    )

trace_iff : (x y : TimelineOutcome) → (same_outcome (some x) (some y) ≡ true) ↔ (trace x ≡ trace y)
trace_iff x y =
    let (to, from) = same_text_iff x.error y.error in
    (
      λ h.
          let ends : x.endpoint ≡ y.endpoint = ground (arith, eq_iff x.endpoint y.endpoint) in
          let outs : x.outcome ≡ y.outcome = ground (arith, eq_iff x.outcome y.outcome) in
          let errors : x.error ≡ y.error = ground (arith, to) in rw (ends, outs, errors) refl,
      λ h.
          let ends : x.endpoint ≡ y.endpoint = ap (λ p. p.0) h in
          let outs : x.outcome ≡ y.outcome = ap (λ p. p.1) h in
          let errors : x.error ≡ y.error = ap (λ p. p.2) h in
          ground (arith, eq_iff x.endpoint y.endpoint, eq_iff x.outcome y.outcome, from errors),
    )

-- The runs agree in what a replay must reproduce.
pub record IsReplay {V D : Type 0} (a b : RunArtifact V D) : Type 0 where
  pub statuses : a.report.status ≡ b.report.status
  pub hashes : a.report.final_snapshot_hash ≡ b.report.final_snapshot_hash
  pub event_counts : length a.events ≡ length b.events
  pub verdicts : map verdict a.report.assertions ≡ map verdict b.report.assertions
  pub traces : map trace a.report.timeline_outcomes ≡ map trace b.report.timeline_outcomes
  pub hit_counts : length a.report.fault_hits ≡ length b.report.fault_hits

module _ {V D : Type 0} (a b : RunArtifact V D) where
  -- The comparison of two runs says that they match exactly if they have the same status, the same
  -- hash of the final snapshot, as many events and as many fault hits, the same assertions with the
  -- same verdicts in the same order, and the same endpoints, outcomes and errors along the timeline.
  pub is_deterministic_match-IsReplay :
      (is_deterministic_match (diff_run_artifacts a b) ≡ true) ↔ IsReplay a b
  unfolding is_deterministic_match diff_run_artifacts
  is_deterministic_match-IsReplay =
      let x = a.report in
      let y = b.report in
      let verdicts =
        compared-map same_assertion verdict
          (λ i. assertion_label (get_elem? x.assertions i) (get_elem? y.assertions i) i) refl
          (λ z. refl) (λ z. refl) verdict_iff x.assertions y.assertions in
      let traces =
        compared-map same_outcome trace (λ i. i) refl (λ z. refl) (λ z. refl) trace_iff
          x.timeline_outcomes y.timeline_outcomes in
      (
        λ h. record {
          statuses = ground (arith, eq_iff x.status y.status);
          hashes = ground (arith, eq_iff x.final_snapshot_hash y.final_snapshot_hash);
          event_counts = ground arith;
          verdicts = verdicts.0 (ground arith);
          traces = traces.0 (ground arith);
          hit_counts = ground arith;
        },
        λ r.
            let v = verdicts.1 r.verdicts in
            let t = traces.1 r.traces in
            ground (
              arith,
              r.statuses,
              r.hashes,
              r.event_counts,
              r.hit_counts,
              eq_iff x.status y.status,
              eq_iff x.final_snapshot_hash y.final_snapshot_hash,
            ),
      )
