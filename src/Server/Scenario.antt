-- ===== src/Server/Scenario.antt =====
-- Scenario documents (twins/crates/twin-scenario/src/lib.rs). `V` is the type of
-- `serde_json::Value`.
use agent_sandbox.Common.Int.{ℤ}
use agent_sandbox.Common.{ℕ, String, Option, List}

-- The values of an `f32`: `number m k` is m / 2 ^ k, which every finite value is.
pub data F32 : Type 0 where
  number : ℤ → ℕ → F32
  infinite : F32
  minus_infinite : F32
  nan : F32

pub data FaultEffect : Type 0 where
  http_error : ℕ → String → FaultEffect
  latency : ℕ → FaultEffect

pub record FaultWhen : Type 0 where
  pub endpoint : String
  pub actor_id : Option String
  pub probability : F32

pub record FaultRule : Type 0 where
  pub id : String
  pub when : FaultWhen
  pub effect : FaultEffect

pub record Actor : Type 0 where
  pub id : String
  pub label : String

pub record TimelineEvent (V : Type 0) : Type 0 where
  pub at_ms : ℕ
  pub actor_id : String
  pub action : V

pub record AssertionRule (V : Type 0) : Type 0 where
  pub id : String
  pub check : V

pub record ScenarioDocument (V : Type 0) : Type 0 where
  pub version : ℕ
  pub name : String
  pub seed : ℕ
  pub start_time_unix_ms : ℤ
  pub actors : List Actor
  pub initial_state : V
  pub timeline : List (TimelineEvent V)
  pub faults : List FaultRule
  pub assertions : List (AssertionRule V)
