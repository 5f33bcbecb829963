-- ===== src/Server/RunScenario/Repeated.antt =====
-- Running a scenario twice.
use agent_sandbox.Common.Slices.{length-map}
use agent_sandbox.Server.Runs.Replay.{verdict}
use agent_sandbox.Server.Runs.Replay.{is_deterministic_match-IsReplay, trace}
use agent_sandbox.Server.Runtime.{full_snapshot}
use agent_sandbox.Common.Sorting.{sort_by}
use agent_sandbox.Server.RunScenario.Canonical.{
  canon, canon_runtime, canon_after, run_timeline-canon, anonymous,
}
use agent_sandbox.Server.RunScenario.{
  RunState, run_scenario, perform_run, run_events, Findings, evaluate_assertions, install_faults,
  finish_run, set_run_metadata, judge, config_of, is_earlier, seeded_run, count_run,
}
use agent_sandbox.Server.Scenario.{ScenarioDocument}
use agent_sandbox.Server.Runs.{RunArtifact, is_deterministic_match, diff_run_artifacts}
use agent_sandbox.Kernel.{TwinState, set_metadata}
use agent_sandbox.Server.Play.{ScenarioTwin, Progress, run_timeline, RunError}
use agent_sandbox.Server.Types.{TwinService, TwinRuntime}
use agent_sandbox.Server.Runtime
use agent_sandbox.Kernel
use agent_sandbox.Common.{
  none, some, ok, err, Option, String, ℕ, ◌≡◌, Result, refl, TwinError, ap, sym, true, ◌∙◌, map,
  length,
}

module _ {V T : Type 0} (null : V) (service : TwinService V T) (twin : ScenarioTwin V T)
    (type_field : V → Option String) (hash : ℕ → ℕ → String → String → String → ℕ)
    (snapshot_hash : TwinState V → String)
    (persist : RunArtifact V (ScenarioDocument V) → Option String) (sc : ScenarioDocument V) where
  abbrev Run : Type 0
  Run = Findings × RunState V T

  abbrev events_run : RunState V T → Run
  events_run = run_events null service twin type_field hash snapshot_hash persist sc

  abbrev whole_run : RunState V T → Run
  whole_run = perform_run null service twin type_field hash snapshot_hash persist sc

  abbrev faulty : RunState V T → RunState V T
  faulty = install_faults sc.faults

  abbrev judged : Progress → Option (String × RunError) → RunState V T → Findings
  judged = judge null service twin type_field hash snapshot_hash persist sc

  judge-canon :
      (p : Progress) (o : Option (String × RunError)) (s : RunState V T)
      → judged p o (canon s) ≡ judged p o s
  unfolding evaluate_assertions
  judge-canon p none s = refl
  judge-canon p (some (text, e)) s = refl

  run_events-canon :
      (u : RunState V T)
      → let x =
          run_timeline twin type_field hash (sort_by is_earlier sc.timeline) (canon (faulty u)) in
        (judged x.0 x.0.failure x.1, x.1) ≡ canon_after (events_run u)
  unfolding run_events
  run_events-canon u =
      let y = run_timeline twin type_field hash (sort_by is_earlier sc.timeline) (faulty u) in
      ap (λ x. (judged x.0 x.0.failure x.1, x.1))
        (run_timeline-canon twin type_field hash (sort_by is_earlier sc.timeline) (faulty u))
      ∙ ap (λ f. (f, canon y.1)) (judge-canon y.0 y.0.failure y.1)

  -- The findings, and the runtime but for the session that events are attributed to.
  abbrev seen : Run → Findings × TwinRuntime V T
  seen (f, s) = (f, canon_runtime s.runtime)

  perform_run-canon : (s t : RunState V T) → seen (whole_run s) ≡ seen (whole_run t)
  unfolding perform_run Runtime.seed Runtime.reset Kernel.reset
  perform_run-canon s t =
      go (service.seed_from_scenario sc.initial_state service.default).0
        (service.seed_from_scenario sc.initial_state service.default).1
    where
      start : RunState V T → T → TwinRuntime V T
      start u v = record { kernel = Kernel.reset null (config_of sc) u.runtime.kernel; service = v }

      go :
          (r : Result TwinError (Unit {0})) (v : T)
          → seen (
              seeded_run null service twin type_field hash snapshot_hash persist sc
                (r, start s v)
                s)
            ≡ seen (
                seeded_run null service twin type_field hash snapshot_hash persist sc
                  (r, start t v)
                  t)
      go (ok done) v =
          ap (λ y. (y.0, y.1.runtime))
            (sym (run_events-canon (record s { runtime = start s v }))
              ∙ run_events-canon (record t { runtime = start t v }))
      go (err e) v = refl

  abbrev artifact : Option String → RunState V T → RunArtifact V (ScenarioDocument V)
  artifact source s =
      (run_scenario null service twin type_field hash snapshot_hash persist sc source s).0

  -- A scenario that is run a second time, from whatever state and with the same rules of the twin,
  -- is judged an exact replay of the first run by the comparison of runs.
  pub run_scenario-is_deterministic_match :
      (source other : Option String) (s t : RunState V T)
      → is_deterministic_match (diff_run_artifacts (artifact source s) (artifact other t)) ≡ true
  unfolding run_scenario finish_run set_run_metadata set_metadata full_snapshot Kernel.snapshot
  run_scenario-is_deterministic_match source other s t =
      let same = perform_run-canon (count_run s) (count_run t) in
      (is_deterministic_match-IsReplay (artifact source s) (artifact other t)).1 (record {
        statuses = ap (λ y. y.0.status) same;
        hashes =
            ap
              (λ y. snapshot_hash (
                full_snapshot service (record {
                  kernel = set_run_metadata sc y.0.failed y.1.kernel;
                  service = y.1.service;
                })))
              same;
        event_counts =
            sym (length-map anonymous (whole_run (count_run s)).1.runtime.kernel.events)
            ∙ ap (λ y. length y.1.kernel.events) same
            ∙ length-map anonymous (whole_run (count_run t)).1.runtime.kernel.events;
        verdicts = ap (λ y. map verdict y.0.assertions) same;
        traces = ap (λ y. map trace y.0.progress.outcomes) same;
        hit_counts = ap (λ y. length y.0.progress.hits) same;
      })
