-- ===== src/Server/Requests/Frozen.antt =====
-- An ended session stays as it is, whatever requests follow.
use agent_sandbox.Server.Applying.Sessions.{
  control_apply_scenario-IsApart, control_apply_scenario_file-IsApart,
  control_replay_scenario-IsApart, control_verify_replay-IsApart,
}
use agent_sandbox.Server.RunScenario.{RunState}
use agent_sandbox.Server.Applying.{Outside}
use agent_sandbox.Server.Requests.Invariant.{
  control_reset-Detached, serve-next, serve-IsConsistent, control_seed-Detached,
  control_restore-Detached,
}
use agent_sandbox.Server.Ending.{
  control_end_session_cases, control_end_session-keeps, control_end_session-next,
  control_end_session-IsConsistent,
}
use agent_sandbox.Server.Creating.Kept.{control_create_session-keeps}
use agent_sandbox.Server.Runtime.{full_snapshot}
use agent_sandbox.Server.Sessions.{is_active, events_of, closed}
use agent_sandbox.Common.BTreeMap.{get, get-update}
use agent_sandbox.Server.Consistent.{IsConsistent}
use agent_sandbox.Common.Int.{ℤ}
use agent_sandbox.Server.Sessions.Handlers.{
  control_session_events, control_session_snapshot, control_end_session,
}
use agent_sandbox.Server.Requests.{serve, serve_all, Request}
use agent_sandbox.Common.{
  Bool, List, String, ℕ, ◌+◌, ◌<◌, length, u64_mod, ◌≡◌, ok, some, false, ◌∷◌, arith, inl, inr, [],
  eq_refl, refl,
}
use agent_sandbox.Server.Types.{TwinService, SessionInfo}

module _ {V T : Type 0} (null : V) (twin : TwinService V T) (is_object : V → Bool)
    (out : Outside V T) where
  serve-keeps :
      (r : Request V T) (s : RunState V T) (k : String) (info : SessionInfo V)
      → s.session_store.next_session_id + 1 < u64_mod
      → IsConsistent s
      → get k s.session_store.sessions ≡ some info
      → is_active info ≡ false
      → get k (serve null twin is_object out r s).session_store.sessions ≡ some info
  unfolding serve
  serve-keeps (Request.create_session seed name now) s k info small h there off =
      control_create_session-keeps null twin now seed name s h small k info there off
  serve-keeps (Request.end_session id now) s k info small h there off =
      control_end_session-keeps null twin id now s k info there off
  serve-keeps (Request.reset_to config) s k info small h there off =
      rw ((control_reset-Detached null twin is_object config s).0) there
  serve-keeps (Request.seed_with value) s k info small h there off =
      rw ((control_seed-Detached null twin is_object value s).0) there
  serve-keeps (Request.restore_to snapshot) s k info small h there off =
      rw ((control_restore-Detached null twin is_object snapshot s).0) there
  serve-keeps (Request.apply_scenario sc) s k info small h there off =
      rw ((control_apply_scenario-IsApart null twin out sc s).0) there
  serve-keeps (Request.apply_scenario_file path) s k info small h there off =
      rw ((control_apply_scenario_file-IsApart null twin out path s).0) there
  serve-keeps (Request.replay_scenario run_id) s k info small h there off =
      rw ((control_replay_scenario-IsApart null twin out run_id s).0) there
  serve-keeps (Request.verify_replay run_id) s k info small h there off =
      rw ((control_verify_replay-IsApart null twin out run_id s).0) there
  serve-keeps (Request.act f endpoint actor_id outcome detail fault_id context) s k info small h
        there off =
      there

  serve_all-keeps :
      (rs : List (Request V T)) (s : RunState V T) (k : String) (info : SessionInfo V)
      → s.session_store.next_session_id + length rs < u64_mod
      → IsConsistent s
      → get k s.session_store.sessions ≡ some info
      → is_active info ≡ false
      → get k (serve_all null twin is_object out rs s).session_store.sessions ≡ some info
  unfolding serve_all
  serve_all-keeps [] s k info small h there off = there
  serve_all-keeps (r ∷ rs) s k info small h there off =
      serve_all-keeps rs (serve null twin is_object out r s) k info
        (omega (arith, serve-next null twin is_object out r s (omega arith) h))
        (serve-IsConsistent null twin is_object out r s (omega arith) h)
        (serve-keeps r s k info (omega arith) h there off) off

  -- If the end of a session is accepted in a consistent state, then after whatever requests of
  -- `Request` follow, resets, restores, runs of scenarios and replays among them, its events and its snapshot are read as they were at the end, as
  -- long as the number of requests leaves the counter of sessions below its wrap-around.
  pub serve_all-frozen :
      (id : String) (now : ℤ) (n : ℕ) (rs : List (Request V T)) (s : RunState V T)
      → IsConsistent s
      → s.session_store.next_session_id + length rs < u64_mod
      → (control_end_session null twin id now s).0 ≡ ok (id, n)
      → let t = serve_all null twin is_object out rs (control_end_session null twin id now s).1 in
        (control_session_events null twin id t ≡ (ok (events_of id s.runtime.kernel), t))
        × (control_session_snapshot null twin id t ≡ (ok (full_snapshot twin s.runtime), t))
        × (n ≡ length (events_of id s.runtime.kernel))
  unfolding control_session_events control_session_snapshot
  serve_all-frozen id now n rs s h small e = elim (control_end_session_cases null twin id now s) [
    | inl (why, refused) ↦ absurd (ground arith)
    | inr (info, found, on, done) ↦
        let f = closed now (full_snapshot twin s.runtime) (events_of id s.runtime.kernel) in
        let t = (control_end_session null twin id now s).1 in
        let there : get id t.session_store.sessions ≡ some (f info) =
          rw done (ground (arith, get-update id id f s.session_store.sessions, eq_refl id)) in
        let still =
          serve_all-keeps rs t id (f info) (rw (control_end_session-next null twin id now s) small)
            (control_end_session-IsConsistent null twin id now s h) there refl in
        rw still (refl, refl, ground arith)
  ]
