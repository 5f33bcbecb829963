-- ===== src/Server/Applying/Sessions.antt =====
-- A run of a scenario leaves the sessions alone, and the session that events are attributed to.
use agent_sandbox.Common.BTreeMap.{get}
use agent_sandbox.Common.Sorting.{sort_by}
use agent_sandbox.Server.Validation.{validate_scenario}
use agent_sandbox.Server.Tokens.{is_safe_token}
use agent_sandbox.Server.Runs.{RunArtifact}
use agent_sandbox.Server.Faults.{evaluate_fault}
use agent_sandbox.Server.RunScenario.{
  perform_run, run_scenario, finish_run, set_run_metadata, RunState, count_run, run_events,
  StoredRun, config_of, seeded_run, is_earlier, install_faults,
}
use agent_sandbox.Kernel.{record_event, record_event_with_context, set_metadata}
use agent_sandbox.Server.Applying.{
  Outside, run_and_report, given_or, load_run_artifact, Apply, control_verify_replay,
  control_replay_scenario, control_apply_scenario, control_apply_scenario_file, answer_of,
  ApplyError, scenario_of_run, run_not_found, load_run, decoded_scenario,
}
use agent_sandbox.Server.Play.{
  conclude, ScenarioTwin, with_effect, with_fault, PlayState, RunError, run_event, run_timeline,
  EventResult, Progress, proceed, action_type,
}
use agent_sandbox.Common.{
  Option, ◌≡◌, String, ℕ, Result, some, some, TwinError, List, refl, none, ok, ◌∷◌, ◌∙◌, err, [],
  Bool, ◌>>=◌, require, true, false, continue,
}
use agent_sandbox.Server.Runtime
use agent_sandbox.Kernel
use agent_sandbox.Server.Types.{AppState, TwinService, TwinRuntime}
use agent_sandbox.Server.Scenario.{
  TimelineEvent, FaultRule, FaultEffect, latency, http_error, ScenarioDocument,
}

-- The sessions, and the kernel's active session, are those of `s`.
abbrev pub IsApart : {V T F R : Type 0} → AppState V T F R → AppState V T F R → Type 0
IsApart s t =
    (t.session_store ≡ s.session_store)
    × (t.runtime.kernel.active_session ≡ s.runtime.kernel.active_session)

module _ {V T R : Type 0} where
  conclude-IsApart :
      (e : TimelineEvent V) (kind : String) (fault : Option FaultRule)
      (result : Result TwinError String × T) (s : PlayState V T R)
      → IsApart s (conclude e kind fault result s).1
  unfolding conclude record_event record_event_with_context
  conclude-IsApart e kind fault (ok endpoint, service) s = (refl, refl)
  conclude-IsApart e kind fault (err x, service) s = (refl, refl)

  proceed-IsApart :
      (o : Option (String × RunError)) (r : EventResult) (later : Progress × PlayState V T R)
      (s t : PlayState V T R)
      → IsApart s t
      → IsApart s later.1
      → IsApart s (proceed o r later t).1
  proceed-IsApart none r later s t here there = there
  proceed-IsApart (some failure) r later s t here there = here

module _ {V T R : Type 0} (twin : ScenarioTwin V T) where
  with_effect-IsApart :
      (e : TimelineEvent V) (kind : String) (rule : FaultRule) (effect : FaultEffect)
      (s : PlayState V T R)
      → IsApart s (with_effect twin e kind rule effect s).1
  unfolding with_effect record_event record_event_with_context
  with_effect-IsApart e kind rule (latency delay) s =
      conclude-IsApart e kind (some rule)
        (twin.execute_timeline_action e.action e.actor_id s.runtime.service) s
  with_effect-IsApart e kind rule (http_error code text) s = (refl, refl)

  with_fault-IsApart :
      (e : TimelineEvent V) (kind : String) (fault : Option FaultRule) (s : PlayState V T R)
      → IsApart s (with_fault twin e kind fault s).1
  unfolding with_fault
  with_fault-IsApart e kind none s =
      conclude-IsApart e kind none
        (twin.execute_timeline_action e.action e.actor_id s.runtime.service) s
  with_fault-IsApart e kind (some rule) s = with_effect-IsApart e kind rule rule.effect s

  module _ (type_field : V → Option String) (hash : ℕ → ℕ → String → String → String → ℕ) where
    run_event-IsApart :
        (e : TimelineEvent V) (s : PlayState V T R)
        → IsApart s (run_event twin type_field hash e s).1
    unfolding run_event evaluate_fault
    run_event-IsApart e s =
        let kind = action_type (type_field e.action) in
        let after = evaluate_fault hash kind (some e.actor_id) s in
        with_fault-IsApart e kind after.0 after.1

    run_timeline-IsApart :
        (es : List (TimelineEvent V)) (s : PlayState V T R)
        → IsApart s (run_timeline twin type_field hash es s).1
    unfolding run_timeline
    run_timeline-IsApart [] s = (refl, refl)
    run_timeline-IsApart (e ∷ es) s =
        let now = run_event twin type_field hash e s in
        let (store, tag) = run_event-IsApart e s in
        let (later_store, later_tag) = run_timeline-IsApart es now.1 in
        proceed-IsApart now.0.failure now.0 (run_timeline twin type_field hash es now.1) s now.1
          (store, tag) (later_store ∙ store, later_tag ∙ tag)

module _ {V T : Type 0} (null : V) (service : TwinService V T) (out : Outside V T) where
  perform_run-IsApart :
      (sc : ScenarioDocument V) (s : RunState V T)
      → IsApart s
          (perform_run null service out.twin out.type_field out.hash out.snapshot_hash out.persist
            sc s).1
  unfolding perform_run Runtime.seed Runtime.reset Kernel.reset run_events
  perform_run-IsApart sc s =
      go (service.seed_from_scenario sc.initial_state service.default).0
        (service.seed_from_scenario sc.initial_state service.default).1
    where
      start : T → TwinRuntime V T
      start v = record { kernel = Kernel.reset null (config_of sc) s.runtime.kernel; service = v }

      go :
          (r : Result TwinError (Unit {0})) (v : T)
          → IsApart s
              (seeded_run null service out.twin out.type_field out.hash out.snapshot_hash
                out.persist sc
                (r, start v)
                s).1
      go (ok done) v =
          run_timeline-IsApart out.twin out.type_field out.hash (sort_by is_earlier sc.timeline)
            (install_faults sc.faults (record s { runtime = start v }))
      go (err e) v = (refl, refl)

  answer_of-state :
      (x : RunArtifact V (ScenarioDocument V) × Option RunError × RunState V T)
      → (answer_of x).1 ≡ x.2
  answer_of-state (artifact, none, s) = refl
  answer_of-state (artifact, some e, s) = refl

  run_and_report-IsApart :
      (sc : ScenarioDocument V) (source : Option String) (s : RunState V T)
      → IsApart s (run_and_report null service out sc source s).1
  unfolding run_and_report run_scenario finish_run set_run_metadata set_metadata
  run_and_report-IsApart sc source s =
      rw
        (answer_of-state (
          run_scenario null service out.twin out.type_field out.hash out.snapshot_hash out.persist
            sc source s))
        (perform_run-IsApart sc (count_run s))

  abbrev IsSafe : {A : Type 0} → Apply V T A → Type 0
  IsSafe op = (s : RunState V T) → IsApart s (op s).1

  bind-IsSafe :
      {A B : Type 0} (m : Apply V T A) (f : A → Apply V T B)
      → IsSafe m
      → ((a : A) → IsSafe (f a))
      → IsSafe (m >>= f)
  bind-IsSafe {A = A} m f h k s = go (m s) (h s)
    where
      go : (r : Result ApplyError A × RunState V T) → IsApart s r.1 → IsApart s (continue r f).1
      go (ok a, t) (store, tag) =
          let (more_store, more_tag) = k a t in (more_store ∙ store, more_tag ∙ tag)
      go (err e, t) h = h

  given_or-IsSafe : {A : Type 0} (e : RunError) (r : Result String A) → IsSafe (given_or e r)
  given_or-IsSafe e (ok a) s = (refl, refl)
  given_or-IsSafe e (err text) s = (refl, refl)

  require-IsSafe : (b : Bool) (e : ApplyError) → IsSafe (require b e)
  require-IsSafe true e s = (refl, refl)
  require-IsSafe false e s = (refl, refl)

  load_run_artifact-IsSafe :
      {A : Type 0} (read : String → Result String A) (run_id : String)
      → IsSafe (load_run_artifact read run_id)
  unfolding load_run_artifact
  load_run_artifact-IsSafe read run_id =
      bind-IsSafe (require (is_safe_token run_id) _) _ (require-IsSafe (is_safe_token run_id) _)
        (λ u. given_or-IsSafe run_not_found (load_run read run_id))

  pub control_apply_scenario-IsApart :
      (sc : ScenarioDocument V) (s : RunState V T)
      → IsApart s (control_apply_scenario null service out sc s).1
  unfolding control_apply_scenario
  control_apply_scenario-IsApart sc =
      bind-IsSafe (require (validate_scenario out.validate sc).valid _) _
        (require-IsSafe (validate_scenario out.validate sc).valid _)
        (λ u. run_and_report-IsApart sc none)

  pub control_apply_scenario_file-IsApart :
      (path : String) (s : RunState V T)
      → IsApart s (control_apply_scenario_file null service out path s).1
  unfolding control_apply_scenario_file
  control_apply_scenario_file-IsApart path =
      bind-IsSafe (decoded_scenario null service out (out.read_scenario path)) _
        (read (out.read_scenario path)) control_apply_scenario-IsApart
    where
      read :
          (r : Result RunError (ScenarioDocument V)) → IsSafe (decoded_scenario null service out r)
      read (ok sc) s = (refl, refl)
      read (err e) s = (refl, refl)

  pub control_replay_scenario-IsApart :
      (run_id : String) (s : RunState V T)
      → IsApart s (control_replay_scenario null service out run_id s).1
  unfolding control_replay_scenario
  control_replay_scenario-IsApart run_id =
      bind-IsSafe (λ s. scenario_of_run null service out run_id (get run_id s.scenario.runs) s) _
        (λ s. found (get run_id s.scenario.runs) s) (λ sc. run_and_report-IsApart sc (some run_id))
    where
      found : (o : Option (StoredRun V)) → IsSafe (scenario_of_run null service out run_id o)
      found (some run) s = (refl, refl)
      found none s =
          bind-IsSafe (given_or run_not_found (load_run out.read_run run_id)) _
            (given_or-IsSafe run_not_found (load_run out.read_run run_id)) (λ a t. (refl, refl)) s

  pub control_verify_replay-IsApart :
      (run_id : String) (s : RunState V T)
      → IsApart s (control_verify_replay null service out run_id s).1
  unfolding control_verify_replay
  control_verify_replay-IsApart run_id =
      bind-IsSafe (load_run_artifact out.read_run run_id) _
        (load_run_artifact-IsSafe out.read_run run_id)
        λ baseline.
          bind-IsSafe (run_and_report null service out baseline.scenario (some run_id)) _
            (run_and_report-IsApart baseline.scenario (some run_id))
            λ report.
              bind-IsSafe (load_run_artifact out.read_again report.run_id) _
                (load_run_artifact-IsSafe out.read_again report.run_id) (λ replay t. (refl, refl))
