-- ===== src/Server/Sessions/Handlers.antt =====
-- The handlers of sessions. `now` is what `now_unix_ms` answers. A handler takes several locks in
-- turn; what it does under each is an operation of its own, so that other handlers can run between.
use agent_sandbox.Server.Runtime
use agent_sandbox.Server.Runtime.{full_snapshot}
use agent_sandbox.Common.BTreeMap.{update, get, values}
use agent_sandbox.Common.Int.{ℤ}
use agent_sandbox.Kernel.{
  TwinKernel, TwinState, TwinEvent, clear_active_session, set_active_session,
}
use agent_sandbox.Server.Sessions.{
  active_session, create, is_active, end_session_in_place, events_of, closed,
}
use agent_sandbox.Common.{
  String, Option, Result, List, gets, if◌then◌else◌, ℕ, TwinError, ok, ok_or, ◌>>=◌, some, ◌>>◌,
  modify, [], require, none, err, length, pure, is_some_text,
}
use agent_sandbox.Server.Types.{
  TwinService, TwinRuntime, ApiError, AppState, Handler, SessionInfo, error_text, ended,
  session_not_found, map_error, active,
}

abbrev pub id_of : {V : Type 0} → Option (SessionInfo V) → Option String
id_of none = none
id_of (some info) = some info.session_id

abbrev pub end_if_active :
    {V T : Type 0} → TwinService V T → ℤ → TwinRuntime V T → SessionInfo V → SessionInfo V
end_if_active twin now rt info =
    if is_active info then end_session_in_place twin now rt info else info

abbrev pub or_empty : Option (List TwinEvent) → List TwinEvent
or_empty none = []
or_empty (some es) = es

abbrev pub no_snapshot : ApiError
no_snapshot = record {
  status_code = 500;
  body = error_text "no snapshot available for ended session";
}

module _ {V T F R : Type 0} where
  abbrev pub with_runtime :
      (TwinRuntime V T → TwinRuntime V T) → AppState V T F R → AppState V T F R
  with_runtime f s = record s { runtime = f s.runtime }

  abbrev pub with_kernel : (TwinKernel V → TwinKernel V) → AppState V T F R → AppState V T F R
  with_kernel f s = record s { runtime = record s.runtime { kernel = f s.runtime.kernel } }

  -- `session_store.get_mut(id)` and a write.
  abbrev pub with_session :
      String → (SessionInfo V → SessionInfo V) → AppState V T F R → AppState V T F R
  with_session id f s = record s {
    session_store = record s.session_store { sessions = update id f s.session_store.sessions };
  }

  abbrev pub find_session : String → Handler V T F R (SessionInfo V)
  find_session id s = ok_or (get id s.session_store.sessions) session_not_found s

  -- The identifier of the active session, and the lock is given back.
  abbrev pub active_id : Handler V T F R (Option String)
  active_id s = (ok (id_of (active_session s.session_store)), s)

module _ {V T F R : Type 0} (null : V) (twin : TwinService V T) where
  abbrev pub end_active : ℤ → Option String → Handler V T F R (Unit {0})
  end_active now none s = (ok tt, s)
  end_active now (some old_id) s = (
    ok tt,
    with_kernel clear_active_session (with_session old_id (end_if_active twin now s.runtime) s),
  )

  abbrev pub reset_twin : Handler V T F R (Unit {0})
  reset_twin s = (ok tt, with_runtime (Runtime.reset null twin s.runtime.kernel.config) s)

  abbrev pub seeded : Result TwinError (Unit {0}) × TwinRuntime V T → Handler V T F R (Unit {0})
  seeded (ok _, rt) s = (ok tt, record s { runtime = rt })
  seeded (err e, rt) s = (err (map_error e), record s { runtime = rt })

  abbrev pub apply_seed : Option V → Handler V T F R (Unit {0})
  apply_seed none s = (ok tt, s)
  apply_seed (some value) s = seeded (Runtime.seed twin value s.runtime) s

  abbrev pub open_session : Option String → ℤ → Handler V T F R String
  open_session name now s =
      let (session_id, store) = create name now s.session_store in
      (ok session_id, record s { session_store = store })

  unfoldable pub start_session : Option V → Option String → ℤ → Handler V T F R String
  start_session seed name now = do
    reset_twin
    apply_seed seed
    session_id ← open_session name now
    modify (with_kernel (set_active_session session_id))
    pure session_id

  -- What follows the question for the active session.
  unfoldable pub replace_session :
      Option V → Option String → ℤ → Option String → Handler V T F R String
  replace_session seed name now old = do end_active now old; start_session seed name now

  -- The result is the identifier in the JSON of the response.
  unfoldable pub control_create_session : Option V → Option String → ℤ → Handler V T F R String
  control_create_session seed name now = do old ← active_id; replace_session seed name now old

  -- The identifier and the number of events in the response.
  unfoldable pub control_end_session : String → ℤ → Handler V T F R (String × ℕ)
  control_end_session id now = do
    info ← find_session id
    require (is_active info)
        (record { status_code = 409; body = error_text "session already ended" })
    snapshot ← gets (λ s. full_snapshot twin s.runtime)
    frozen ← gets (λ s. events_of id s.runtime.kernel)
    modify (with_session id (closed now snapshot frozen))
    modify
        (with_kernel (λ k. if is_some_text k.active_session id then clear_active_session k else k))
    pure (id, length frozen)

  unfoldable pub control_session_events : String → Handler V T F R (List TwinEvent)
  control_session_events id = do
    info ← find_session id
    elim info.status [
      | ended ↦ pure (or_empty info.frozen_events)
      | active ↦ gets (λ s. events_of id s.runtime.kernel)
    ]

  unfoldable pub control_session_snapshot : String → Handler V T F R (TwinState V)
  control_session_snapshot id = do
    info ← find_session id
    elim info.status [
      | ended ↦ λ s. ok_or info.final_snapshot no_snapshot s
      | active ↦ gets (λ s. full_snapshot twin s.runtime)
    ]

  -- The session and the number of its events in the response.
  unfoldable pub control_get_session : String → Handler V T F R (SessionInfo V × ℕ)
  control_get_session id = do
    info ← find_session id
    count ← gets (λ s. elim info.status [
      | ended ↦ info.final_event_count
      | active ↦ length (events_of id s.runtime.kernel)
    ])
    pure (info, count)

  unfoldable pub control_list_sessions : Handler V T F R (List (SessionInfo V))
  control_list_sessions = gets (λ s. values s.session_store.sessions)
