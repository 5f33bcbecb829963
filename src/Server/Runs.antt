-- ===== src/Server/Runs.antt =====
-- Reports of scenario runs, and their comparison (`diff_run_artifacts`). `D` is the type of scenario
-- documents.
pub mod Replay
use agent_sandbox.Common.{none, some, is_some_text, ◌<>◌, to_string}
use agent_sandbox.Kernel.{TwinEvent, TwinState}
use agent_sandbox.Common.Int.{ℤ}
use agent_sandbox.Common.{
  String, ℕ, str_eq, Bool, Option, List, length, [], not, if◌then◌else◌, true, ◌&&◌, some, ◌==◌,
  ltb, ◌∷◌, false, suc, get_elem?, ◌+◌, zero,
}

pub record TimelineOutcome : Type 0 where
  pub at_ms : ℕ
  pub actor_id : String
  pub action_type : String
  pub endpoint : String
  pub outcome : String
  pub error : Option String

pub record FaultHit : Type 0 where
  pub fault_id : String
  pub endpoint : String
  pub actor_id : Option String
  pub effect_type : String

-- `AssertionResult` of twin-service.
pub record AssertionResult : Type 0 where
  pub id : String
  pub passed : Bool
  pub message : String

pub record ScenarioRunReport : Type 0 where
  pub run_id : String
  pub source_run_id : Option String
  pub scenario_name : String
  pub status : String
  pub seed : ℕ
  pub start_time_unix_ms : ℤ
  pub events_applied : ℕ
  pub timeline_outcomes : List TimelineOutcome
  pub fault_hits : List FaultHit
  pub assertions : List AssertionResult
  pub failed_assertions : ℕ
  pub final_snapshot_revision : ℕ
  pub final_snapshot_hash : String
  pub error : Option String

pub record RunArtifact (V D : Type 0) : Type 0 where
  pub report : ScenarioRunReport
  pub scenario : D
  pub events : List TwinEvent
  pub snapshot : TwinState V

pub record RunDiffResult : Type 0 where
  pub run_id_a : String
  pub run_id_b : String
  pub status_a : String
  pub status_b : String
  pub status_equal : Bool
  pub snapshot_hash_a : String
  pub snapshot_hash_b : String
  pub snapshot_hash_equal : Bool
  pub events_count_a : ℕ
  pub events_count_b : ℕ
  pub events_count_equal : Bool
  pub assertions_changed : List String
  pub timeline_mismatch_indices : List ℕ
  pub fault_hit_count_a : ℕ
  pub fault_hit_count_b : ℕ
  pub fault_hit_count_equal : Bool

abbrev pub max : ℕ → ℕ → ℕ
max a b = if ltb a b then b else a

-- The loop `for i in i..i + n`, which pushes a label for each index that is not the same.
abbrev pub mismatches : {B : Type 0} → (ℕ → Bool) → (ℕ → B) → ℕ → ℕ → List B
mismatches same label i zero = []
mismatches same label i (suc n) =
    let rest = mismatches same label (i + 1) n in if same i then rest else label i ∷ rest

abbrev pub same_flag : Bool → Bool → Bool
same_flag true b = b
same_flag false b = not b

abbrev pub same_text : Option String → Option String → Bool
same_text none none = true
same_text none (some t) = false
same_text (some s) o = is_some_text o s

-- Equality of the identifiers and the verdicts, where there are any.
abbrev pub same_assertion : Option AssertionResult → Option AssertionResult → Bool
same_assertion none none = true
same_assertion none (some y) = false
same_assertion (some x) none = false
same_assertion (some x) (some y) = str_eq x.id y.id && same_flag x.passed y.passed

abbrev pub same_outcome : Option TimelineOutcome → Option TimelineOutcome → Bool
same_outcome none none = true
same_outcome none (some y) = false
same_outcome (some x) none = false
same_outcome (some x) (some y) =
    str_eq x.endpoint y.endpoint && str_eq x.outcome y.outcome && same_text x.error y.error

-- `i` is printed where both lists have ended, which does not happen.
abbrev pub assertion_label : Option AssertionResult → Option AssertionResult → ℕ → String
assertion_label (some x) o i = x.id
assertion_label none (some y) i = y.id
assertion_label none none i = "index_" <> to_string i

module _ {V D : Type 0} where
  unfoldable pub diff_run_artifacts : RunArtifact V D → RunArtifact V D → RunDiffResult
  diff_run_artifacts a b =
      let x = a.report in
      let y = b.report in
      record {
        run_id_a = x.run_id;
        run_id_b = y.run_id;
        status_a = x.status;
        status_b = y.status;
        status_equal = str_eq x.status y.status;
        snapshot_hash_a = x.final_snapshot_hash;
        snapshot_hash_b = y.final_snapshot_hash;
        snapshot_hash_equal = str_eq x.final_snapshot_hash y.final_snapshot_hash;
        events_count_a = length a.events;
        events_count_b = length b.events;
        events_count_equal = length a.events == length b.events;
        assertions_changed =
            mismatches (λ i. same_assertion (get_elem? x.assertions i) (get_elem? y.assertions i))
              (λ i. assertion_label (get_elem? x.assertions i) (get_elem? y.assertions i) i) 0
              (max (length x.assertions) (length y.assertions));
        timeline_mismatch_indices =
            mismatches
              (λ i.
                same_outcome (get_elem? x.timeline_outcomes i) (get_elem? y.timeline_outcomes i))
              (λ i. i) 0 (max (length x.timeline_outcomes) (length y.timeline_outcomes));
        fault_hit_count_a = length x.fault_hits;
        fault_hit_count_b = length y.fault_hits;
        fault_hit_count_equal = length x.fault_hits == length y.fault_hits;
      }

abbrev pub is_empty : {B : Type 0} → List B → Bool
is_empty [] = true
is_empty (x ∷ xs) = false

unfoldable pub is_deterministic_match : RunDiffResult → Bool
is_deterministic_match diff =
    diff.status_equal
    && diff.snapshot_hash_equal
    && diff.events_count_equal
    && is_empty diff.assertions_changed
    && is_empty diff.timeline_mismatch_indices
    && diff.fault_hit_count_equal
