-- ===== src/Server/RunScenario/Canonical.antt =====
-- A run does not depend on what the state has beside the runtime and the installed faults: the runs
-- and sessions before, and the session to which events are attributed.
use mathlib.Core.List.{map-append}
use agent_sandbox.Server.Faults.{evaluate_fault}
use agent_sandbox.Server.Scenario.{TimelineEvent, FaultRule, FaultEffect, latency, http_error}
use agent_sandbox.Server.Types.{TwinRuntime, message}
use agent_sandbox.Kernel.{
  TwinEvent, record_event, TwinKernel, record_event_with_context, event_of, default_context,
}
use agent_sandbox.Server.Play.{
  conclude, ScenarioTwin, PlayState, with_fault, with_effect, record_in, RunError, EventResult,
  run_timeline, run_event, Progress, fault_id_of, action_type, proceed, set_service,
}
use agent_sandbox.Common.{
  [], ◌∷◌, none, some, ok, err, Option, map, String, ℕ, ◌≡◌, Result, TwinError, List, ap, ◌∙◌, refl,
}

abbrev pub anonymous : TwinEvent → TwinEvent
anonymous e = record e { session_id = none }

abbrev pub canon_kernel : {V : Type 0} → TwinKernel V → TwinKernel V
canon_kernel k = record k { events = map anonymous k.events; active_session = none }

abbrev pub canon_runtime : {V T : Type 0} → TwinRuntime V T → TwinRuntime V T
canon_runtime rt = record rt { kernel = canon_kernel rt.kernel }

module _ {V T R : Type 0} where
  abbrev pub canon : PlayState V T R → PlayState V T R
  canon s = record {
    runtime = canon_runtime s.runtime;
    scenario = record s.scenario { next_run_id = 0; runs = [] };
    session_store = record { sessions = []; next_session_id = 0 };
  }

  record_in-canon :
      (endpoint actor_id outcome detail : String) (fault_id : Option String) (s : PlayState V T R)
      → record_in endpoint actor_id outcome detail fault_id (canon s)
        ≡ canon (record_in endpoint actor_id outcome detail fault_id s)
  unfolding record_event record_event_with_context
  record_in-canon endpoint actor_id outcome detail fault_id s =
      let k = s.runtime.kernel in
      let e = event_of endpoint (some actor_id) outcome detail fault_id default_context k in
      rw (map-append anonymous k.events (e ∷ [])) refl

  -- What an operation answers from a canonical state, and the canonical state after it.
  abbrev pub canon_after : {A : Type 0} → A × PlayState V T R → A × PlayState V T R
  canon_after (a, s) = (a, canon s)

  proceed-canon :
      (o : Option (String × RunError)) (r : EventResult) (later : Progress × PlayState V T R)
      (s : PlayState V T R)
      → proceed o r (canon_after later) (canon s) ≡ canon_after (proceed o r later s)
  proceed-canon none r later s = refl
  proceed-canon (some failure) r later s = refl

  conclude-canon :
      (e : TimelineEvent V) (kind : String) (fault : Option FaultRule)
      (result : Result TwinError String × T) (s : PlayState V T R)
      → conclude e kind fault result (canon s) ≡ canon_after (conclude e kind fault result s)
  unfolding conclude
  conclude-canon e kind fault (ok endpoint, service) s =
      ap (λ t. ((conclude e kind fault (ok endpoint, service) s).0, t))
        (record_in-canon endpoint e.actor_id "ok" "timeline action applied" (fault_id_of fault)
          (set_service service s))
  conclude-canon e kind fault (err x, service) s =
      ap (λ t. ((conclude e kind fault (err x, service) s).0, t))
        (record_in-canon kind e.actor_id "error" (message x) (fault_id_of fault)
          (set_service service s))

module _ {V T R : Type 0} (twin : ScenarioTwin V T) where
  with_effect-canon :
      (e : TimelineEvent V) (kind : String) (rule : FaultRule) (effect : FaultEffect)
      (s : PlayState V T R)
      → with_effect twin e kind rule effect (canon s)
        ≡ canon_after (with_effect twin e kind rule effect s)
  unfolding with_effect
  with_effect-canon e kind rule (latency delay) s =
      conclude-canon e kind (some rule)
        (twin.execute_timeline_action e.action e.actor_id s.runtime.service) s
  with_effect-canon e kind rule (http_error code text) s =
      ap (λ t. ((with_effect twin e kind rule (http_error code text) s).0, t))
        (record_in-canon kind e.actor_id "fault_http_error" text (some rule.id) s)

  with_fault-canon :
      (e : TimelineEvent V) (kind : String) (fault : Option FaultRule) (s : PlayState V T R)
      → with_fault twin e kind fault (canon s) ≡ canon_after (with_fault twin e kind fault s)
  unfolding with_fault
  with_fault-canon e kind none s =
      conclude-canon e kind none
        (twin.execute_timeline_action e.action e.actor_id s.runtime.service) s
  with_fault-canon e kind (some rule) s = with_effect-canon e kind rule rule.effect s

  module _ (type_field : V → Option String) (hash : ℕ → ℕ → String → String → String → ℕ) where
    run_event-canon :
        (e : TimelineEvent V) (s : PlayState V T R)
        → run_event twin type_field hash e (canon s)
          ≡ canon_after (run_event twin type_field hash e s)
    unfolding run_event evaluate_fault
    run_event-canon e s =
        let kind = action_type (type_field e.action) in
        let after = evaluate_fault hash kind (some e.actor_id) s in
        with_fault-canon e kind after.0 after.1

    pub run_timeline-canon :
        (es : List (TimelineEvent V)) (s : PlayState V T R)
        → run_timeline twin type_field hash es (canon s)
          ≡ canon_after (run_timeline twin type_field hash es s)
    unfolding run_timeline
    run_timeline-canon [] s = refl
    run_timeline-canon (e ∷ es) s =
        let now = run_event twin type_field hash e s in
        ap (λ x. proceed x.0.failure x.0 (run_timeline twin type_field hash es x.1) x.1)
          (run_event-canon e s)
        ∙ ap (λ y. proceed now.0.failure now.0 y (canon now.1)) (run_timeline-canon es now.1)
        ∙ proceed-canon now.0.failure now.0 (run_timeline twin type_field hash es now.1) now.1
