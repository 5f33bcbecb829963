-- ===== src/Server/Requests/Invariant.antt =====
-- Every request keeps the sessions consistent.
use agent_sandbox.Server.Applying.Sessions.{
  IsApart, control_apply_scenario-IsApart, control_apply_scenario_file-IsApart,
  control_replay_scenario-IsApart, control_verify_replay-IsApart,
}
use agent_sandbox.Server.RunScenario.{RunState}
use agent_sandbox.Server.Applying.{Outside}
use agent_sandbox.Common.BTreeMap.{get}
use agent_sandbox.Server.Creating.Kept.{control_create_session-next}
use agent_sandbox.Server.Ending.{control_end_session-IsConsistent, control_end_session-next}
use agent_sandbox.Server.Creating.{
  control_create_session_cases, IsIdle-IsConsistent, IsStarted-IsConsistent,
}
use agent_sandbox.Kernel.{clear_active_session, TwinState, TwinConfig}
use agent_sandbox.Server.Consistent.{IsConsistent}
use agent_sandbox.Server.Requests.{serve, Request, new_state, serve_all}
use agent_sandbox.Server.Control.{control_reset, control_restore, control_seed}
use agent_sandbox.Common.{
  Bool, ◌≡◌, Result-cases, Bool-cases, ◌+◌, none, inl, ◌<◌, ◌⊎◌, arith, inr, inr, sym, u64_mod,
  refl, ◌∙◌, ◌≤◌, List, length, ℕ, ◌∷◌, [],
}
use agent_sandbox.Server.Types.{TwinService, AppState}
use agent_sandbox.Kernel
use agent_sandbox.Server.Runtime

module _ {V T F R : Type 0} (null : V) (twin : TwinService V T) (is_object : V → Bool) where
  -- A request that leaves the sessions alone and ends the kernel's session, if any.
  abbrev pub Detached : AppState V T F R → AppState V T F R → Type 0
  Detached s t =
      (t.session_store ≡ s.session_store)
      × ((t.runtime.kernel.active_session ≡ none)
          ⊎ (t.runtime.kernel.active_session ≡ s.runtime.kernel.active_session))

  Detached-IsConsistent : (s t : AppState V T F R) → Detached s t → IsConsistent s → IsConsistent t
  Detached-IsConsistent s t (same, which) h = record {
    orderly = rw same h.orderly;
    live = λ k e.
        rw same
          (elim which [ inl alone ↦ absurd (ground arith) | inr kept ↦ h.live k (sym kept ∙ e) ]);
  }

  pub control_reset-Detached :
      (config : TwinConfig) (s : AppState V T F R) → Detached s (control_reset null twin config s).1
  unfolding control_reset Runtime.reset Kernel.reset clear_active_session
  control_reset-Detached config s = (refl, inl refl)

  pub control_seed-Detached :
      (body : V) (s : AppState V T F R) → Detached s (control_seed null twin is_object body s).1
  unfolding control_seed Runtime.reset Kernel.reset clear_active_session Runtime.seed
  control_seed-Detached body s = elim (Bool-cases (is_object body)) [
    | inr other ↦ rw other (refl, inr refl)
    | inl object ↦ elim (Result-cases (twin.seed_from_scenario body twin.default).0) [
      | inl (tt, fine) ↦ rw (object, fine) (refl, inl refl)
      | inr (why, broken) ↦ rw (object, broken) (refl, inl refl)
    ]
  ]

  pub control_restore-Detached :
      (snapshot : TwinState V) (s : AppState V T F R)
      → Detached s (control_restore null twin snapshot s).1
  unfolding control_restore Runtime.full_restore Kernel.restore
  control_restore-Detached snapshot s =
      elim (Result-cases (twin.service_restore snapshot.service_state s.runtime.service).0) [
        | inl (tt, fine) ↦ rw fine (refl, inr refl)
        | inr (why, broken) ↦ rw broken (refl, inr refl)
      ]

module _ {V T : Type 0} (null : V) (twin : TwinService V T) (is_object : V → Bool)
    (out : Outside V T) where
  IsApart-IsConsistent : (s t : RunState V T) → IsApart s t → IsConsistent s → IsConsistent t
  IsApart-IsConsistent s t (store, tag) h =
      Detached-IsConsistent null twin is_object s t (store, inr tag) h

  pub serve-IsConsistent :
      (r : Request V T) (s : RunState V T)
      → s.session_store.next_session_id + 1 < u64_mod
      → IsConsistent s
      → IsConsistent (serve null twin is_object out r s)
  unfolding serve Kernel.record_event_with_context
  serve-IsConsistent (Request.create_session seed name now) s small h =
      elim (control_create_session_cases null twin seed name now s h small) [
        | inl (e, refused, idle) ↦ IsIdle-IsConsistent _ idle
        | inr (id, done, started) ↦ IsStarted-IsConsistent _ id started
      ]
  serve-IsConsistent (Request.end_session id now) s small h =
      control_end_session-IsConsistent null twin id now s h
  serve-IsConsistent (Request.reset_to config) s small h =
      Detached-IsConsistent null twin is_object s _
        (control_reset-Detached null twin is_object config s) h
  serve-IsConsistent (Request.seed_with value) s small h =
      Detached-IsConsistent null twin is_object s _
        (control_seed-Detached null twin is_object value s) h
  serve-IsConsistent (Request.restore_to snapshot) s small h =
      Detached-IsConsistent null twin is_object s _
        (control_restore-Detached null twin is_object snapshot s) h
  serve-IsConsistent (Request.apply_scenario sc) s small h =
      IsApart-IsConsistent s _ (control_apply_scenario-IsApart null twin out sc s) h
  serve-IsConsistent (Request.apply_scenario_file path) s small h =
      IsApart-IsConsistent s _ (control_apply_scenario_file-IsApart null twin out path s) h
  serve-IsConsistent (Request.replay_scenario run_id) s small h =
      IsApart-IsConsistent s _ (control_replay_scenario-IsApart null twin out run_id s) h
  serve-IsConsistent (Request.verify_replay run_id) s small h =
      IsApart-IsConsistent s _ (control_verify_replay-IsApart null twin out run_id s) h
  serve-IsConsistent (Request.act f endpoint actor_id outcome detail fault_id context) s small h =
      record { orderly = h.orderly; live = h.live }

  -- A request makes at most one new identifier.
  pub serve-next :
      (r : Request V T) (s : RunState V T)
      → s.session_store.next_session_id + 1 < u64_mod
      → IsConsistent s
      → (serve null twin is_object out r s).session_store.next_session_id
        ≤ s.session_store.next_session_id + 1
  unfolding serve
  serve-next (Request.create_session seed name now) s small h =
      control_create_session-next null twin now seed name s h small
  serve-next (Request.end_session id now) s small h =
      omega (arith, control_end_session-next null twin id now s)
  serve-next (Request.reset_to config) s small h =
      rw ((control_reset-Detached null twin is_object config s).0) (omega arith)
  serve-next (Request.seed_with value) s small h =
      rw ((control_seed-Detached null twin is_object value s).0) (omega arith)
  serve-next (Request.restore_to snapshot) s small h =
      rw ((control_restore-Detached null twin is_object snapshot s).0) (omega arith)
  serve-next (Request.apply_scenario sc) s small h =
      rw ((control_apply_scenario-IsApart null twin out sc s).0) (omega arith)
  serve-next (Request.apply_scenario_file path) s small h =
      rw ((control_apply_scenario_file-IsApart null twin out path s).0) (omega arith)
  serve-next (Request.replay_scenario run_id) s small h =
      rw ((control_replay_scenario-IsApart null twin out run_id s).0) (omega arith)
  serve-next (Request.verify_replay run_id) s small h =
      rw ((control_verify_replay-IsApart null twin out run_id s).0) (omega arith)
  serve-next (Request.act f endpoint actor_id outcome detail fault_id context) s small h =
      omega arith

  serve_all-IsConsistent :
      (rs : List (Request V T)) (s : RunState V T)
      → s.session_store.next_session_id + length rs < u64_mod
      → IsConsistent s
      → IsConsistent (serve_all null twin is_object out rs s)
  unfolding serve_all
  serve_all-IsConsistent [] s small h = h
  serve_all-IsConsistent (r ∷ rs) s small h =
      serve_all-IsConsistent rs (serve null twin is_object out r s)
        (omega (arith, serve-next r s (omega arith) h)) (serve-IsConsistent r s (omega arith) h)

  -- Whatever requests of `Request` a new server gets, one after another, runs of scenarios and
  -- replays among them, at most one session is active, the session that the kernel tags events with
  -- is active, every session stands under its own identifier, and each session that is not active
  -- has a snapshot, a list of events and the length of that list, as long as the number of requests
  -- leaves the counter of sessions below its wrap-around.
  pub new_state-IsConsistent :
      (config : TwinConfig) (next_run_id : ℕ) (rs : List (Request V T))
      → 1 + length rs < u64_mod
      → IsConsistent {V = V} {T = T}
          (serve_all null twin is_object out rs (new_state null twin is_object config next_run_id))
  unfolding new_state Kernel.new get
  new_state-IsConsistent config next_run_id rs small =
      serve_all-IsConsistent rs (new_state null twin is_object config next_run_id) small (record {
        orderly = record {
          sorted = tt;
          own = λ k info e. absurd (ground arith);
          counted = λ k info e. absurd (ground arith);
          one = λ j k a b. absurd (ground arith);
          frozen = λ k info e off. absurd (ground arith);
        };
        live = λ k e. absurd (ground arith);
      })
