-- ===== src/Server/Faults.antt =====
-- Fault injection (`evaluate_fault`). `hash` is Rust's `DefaultHasher` on the five values in turn,
pub mod Certain
-- whose algorithm the standard library leaves open.
use agent_sandbox.Server.Types.{AppState}
use agent_sandbox.Common.Int.{ℤ, pos, negsuc}
use agent_sandbox.Server.Scenario.{F32, number, FaultWhen, FaultRule, infinite, minus_infinite, nan}
use agent_sandbox.Common.{
  Option, ℕ, String, ◌%◌, some, none, Bool, some, ◌+◌, ◌&&◌, false, str_eq, suc, true, u64_mod, leb,
  if◌then◌else◌, ◌*◌, is_some_text, ltb, find, ◌^◌, zero,
}

-- `p.clamp(0.0, 1.0)` as a numerator and the exponent of its denominator, if it is positive. A NaN
-- stays one, and none of the comparisons with it holds.
abbrev pub positive : ℤ → ℕ → Option (ℕ × ℕ)
positive (pos zero) k = none
positive (pos (suc m)) k = if ltb (2 ^ k) (suc m) then some (1, 0) else some (suc m, k)
positive (negsuc m) k = none

abbrev pub chance : F32 → Option (ℕ × ℕ)
chance (number m k) = positive m k
chance infinite = some (1, 0)
chance minus_infinite = none
chance nan = none

abbrev pub or_blank : Option String → String
or_blank none = ""
or_blank (some s) = s

-- `value <= p`
abbrev pub covers : Option (ℕ × ℕ) → ℕ → Bool
covers none n = false
covers (some (m, k)) n = leb (n * 2 ^ k) (10000 * m)

abbrev pub concerns : FaultWhen → String → Option String → Bool
concerns when endpoint actor_id =
    str_eq when.endpoint endpoint
    && (elim when.actor_id [ none ↦ true | some expected ↦ is_some_text actor_id expected ])

module _ (hash : ℕ → ℕ → String → String → String → ℕ) where
  -- The numerator over 10000. The quotient of the source is rounded to an `f64`, which lies on the
  -- same side of every `f32` as the exact one: an `f32` that is not below 1 / 10000 has a
  -- denominator of at most 2 ^ 37, so that it is the exact quotient or too far from it.
  unfoldable pub deterministic_probability : ℕ → ℕ → String → String → String → ℕ
  deterministic_probability seed decision_index endpoint actor_id fault_id =
      hash seed decision_index endpoint actor_id fault_id % 10000

  -- The body of the loop: whether the rule is returned.
  unfoldable pub fires : ℕ → ℕ → String → Option String → FaultRule → Bool
  fires seed decision_index endpoint actor_id rule =
      concerns rule.when endpoint actor_id
      && covers (chance rule.when.probability)
          (deterministic_probability seed decision_index endpoint (or_blank actor_id) rule.id)

  unfoldable pub evaluate_fault :
      {V T R : Type 0}
      → String
      → Option String
      → AppState V T FaultRule R
      → Option FaultRule × AppState V T FaultRule R
  evaluate_fault endpoint actor_id s =
      let decision_index = (s.scenario.decision_index + 1) % u64_mod in
      (
        find (fires s.runtime.kernel.config.seed decision_index endpoint actor_id)
            s.scenario.faults,
        record s { scenario = record s.scenario { decision_index = decision_index } },
      )
