-- ===== src/Server/Play.antt =====
-- The timeline of a scenario run (`run_scenario` of twins/crates/twin-server-core/src/lib.rs): each
-- event meets the fault rules, then the twin.
use agent_sandbox.Kernel.{record_event}
use agent_sandbox.Server.Faults.{evaluate_fault}
use agent_sandbox.Server.Sessions.Handlers.{with_kernel}
use agent_sandbox.Server.Types.{AppState, message}
use agent_sandbox.Server.Runs.{TimelineOutcome, FaultHit, ScenarioRunReport, AssertionResult}
use agent_sandbox.Server.Scenario.{FaultRule, TimelineEvent, FaultEffect, latency, http_error}
use agent_sandbox.Common.{
  [], ◌∷◌, none, some, ok, err, ◌++◌, List, ℕ, Option, Result, String, ◌+◌, TwinError,
  if◌then◌else◌, unwrap_or, leb, ◌&&◌, Op,
}

-- The methods of `TwinService` that a run calls, beside those of Server.Types; of a timeline action's
-- result only the endpoint is used.
pub record ScenarioTwin (V T : Type 0) : Type 0 where
  pub evaluate_assertion : V → T → Result TwinError AssertionResult
  pub execute_timeline_action : V → String → Op TwinError T String

-- The status and the body of an answer with an error; where assertions failed the body is the report.
pub data RunErrorBody : Type 0 where
  text_body : String → RunErrorBody
  report_body : ScenarioRunReport → RunErrorBody

pub record RunError : Type 0 where
  pub status_code : ℕ
  pub body : RunErrorBody

abbrev pub run_error : ℕ → String → RunError
run_error code text = record { status_code = code; body = text_body text }

-- `StatusCode::from_u16(code).unwrap_or(StatusCode::BAD_GATEWAY)`: the codes of three digits.
abbrev pub http_status : ℕ → ℕ
http_status code = if leb 100 code && leb code 999 then code else 502

pub record EventResult : Type 0 where
  pub outcome : TimelineOutcome
  pub hits : List FaultHit
  pub failure : Option (String × RunError)

pub record Progress : Type 0 where
  pub outcomes : List TimelineOutcome
  pub hits : List FaultHit
  pub applied : ℕ
  pub failure : Option (String × RunError)

abbrev pub no_progress : Progress
no_progress = record { outcomes = []; hits = []; applied = 0; failure = none }

abbrev pub add_result : EventResult → Progress → Progress
add_result r p = record p {
  outcomes = r.outcome ∷ p.outcomes;
  hits = r.hits ++ p.hits;
  applied = p.applied + 1;
}

abbrev pub last_result : EventResult → Progress
last_result r = record {
  outcomes = r.outcome ∷ [];
  hits = r.hits;
  applied = 0;
  failure = r.failure;
}

abbrev pub hit_of : FaultRule → String → String → String → FaultHit
hit_of rule endpoint actor_id effect_type = record {
  fault_id = rule.id;
  endpoint = endpoint;
  actor_id = some actor_id;
  effect_type = effect_type;
}

abbrev pub latency_hits : Option FaultRule → String → String → List FaultHit
latency_hits none endpoint actor_id = []
latency_hits (some rule) endpoint actor_id = hit_of rule endpoint actor_id "latency" ∷ []

-- `action_type_from_json`, on the text of the field `type`.
abbrev pub action_type : Option String → String
action_type type_name = unwrap_or type_name "unknown"

abbrev pub PlayState : Type 0 → Type 0 → Type 0 → Type 0
PlayState V T R = AppState V T FaultRule R

abbrev pub fault_id_of : Option FaultRule → Option String
fault_id_of none = none
fault_id_of (some rule) = some rule.id

abbrev pub outcome_of :
    {V : Type 0} → TimelineEvent V → String → String → String → Option String → TimelineOutcome
outcome_of e kind endpoint outcome error = record {
  at_ms = e.at_ms;
  actor_id = e.actor_id;
  action_type = kind;
  endpoint = endpoint;
  outcome = outcome;
  error = error;
}

module _ {V T R : Type 0} where
  abbrev pub record_in :
      String → String → String → String → Option String → PlayState V T R → PlayState V T R
  record_in endpoint actor_id outcome detail fault_id s =
      with_kernel (record_event endpoint (some actor_id) outcome detail fault_id) s

  abbrev pub set_service : T → PlayState V T R → PlayState V T R
  set_service service s = record s { runtime = record s.runtime { service = service } }

  -- The loop ends with the first failure.
  abbrev pub proceed :
      Option (String × RunError)
      → EventResult
      → Progress × PlayState V T R
      → PlayState V T R
      → Progress × PlayState V T R
  proceed none r (p, t) s = (add_result r p, t)
  proceed (some failure) r later s = (last_result r, s)

  -- The action was carried out or refused, and the service is the one after it.
  unfoldable pub conclude :
      TimelineEvent V
      → String
      → Option FaultRule
      → Result TwinError String × T
      → PlayState V T R
      → EventResult × PlayState V T R
  conclude e kind fault (ok endpoint, service) s = (
    record {
      outcome = outcome_of e kind endpoint "ok" none;
      hits = latency_hits fault endpoint e.actor_id;
      failure = none;
    },
    record_in endpoint e.actor_id "ok" "timeline action applied" (fault_id_of fault)
        (set_service service s),
  )
  conclude e kind fault (err x, service) s = (
    record {
      outcome = outcome_of e kind kind "error" (some (message x));
      hits = latency_hits fault kind e.actor_id;
      failure = some (message x, run_error 400 (message x));
    },
    record_in kind e.actor_id "error" (message x) (fault_id_of fault) (set_service service s),
  )

module _ {V T R : Type 0} (twin : ScenarioTwin V T) where
  abbrev pub execute :
      TimelineEvent V → String → Option FaultRule → PlayState V T R → EventResult × PlayState V T R
  execute e kind fault s =
      conclude e kind fault (twin.execute_timeline_action e.action e.actor_id s.runtime.service) s

  -- A latency delays the action, which the model does not see; an error takes its place.
  unfoldable pub with_effect :
      TimelineEvent V
      → String
      → FaultRule
      → FaultEffect
      → PlayState V T R
      → EventResult × PlayState V T R
  with_effect e kind rule (latency delay_ms) s = execute e kind (some rule) s
  with_effect e kind rule (http_error code text) s = (
    record {
      outcome = outcome_of e kind kind "error" (some text);
      hits = hit_of rule kind e.actor_id "http_error" ∷ [];
      failure = some (text, run_error (http_status code) text);
    },
    record_in kind e.actor_id "fault_http_error" text (some rule.id) s,
  )

  unfoldable pub with_fault :
      TimelineEvent V → String → Option FaultRule → PlayState V T R → EventResult × PlayState V T R
  with_fault e kind none s = execute e kind none s
  with_fault e kind (some rule) s = with_effect e kind rule rule.effect s

  module _ (type_field : V → Option String) (hash : ℕ → ℕ → String → String → String → ℕ) where
    unfoldable pub run_event : TimelineEvent V → PlayState V T R → EventResult × PlayState V T R
    run_event e s =
        let kind = action_type (type_field e.action) in
        let (fault, t) = evaluate_fault hash kind (some e.actor_id) s in with_fault e kind fault t

    unfoldable pub run_timeline :
        List (TimelineEvent V) → PlayState V T R → Progress × PlayState V T R
    run_timeline [] s = (no_progress, s)
    run_timeline (e ∷ es) s =
        let (r, t) = run_event e s in let later = run_timeline es t in proceed r.failure r later t
