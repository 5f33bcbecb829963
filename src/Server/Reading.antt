-- ===== src/Server/Reading.antt =====
-- What the handlers that read agree on.
use agent_sandbox.Server.Sessions.{is_active, is_of_session}
use agent_sandbox.Common.BTreeMap.{get}
use agent_sandbox.Server.Control.{EventQueryParams, control_events, matches}
use agent_sandbox.Server.Sessions.Handlers.{control_session_events}
use agent_sandbox.Server.Types.{TwinService, SessionInfo, AppState, active, SessionStatus, ended}
use agent_sandbox.Common.{String, ◌≡◌, none, some, true, filter-agree, refl, false, arith}

-- The query `?session_id=id`.
abbrev pub session_query : String → EventQueryParams
session_query id = record {
  actor_id = none;
  endpoint = none;
  action = none;
  outcome = none;
  after = none;
  before = none;
  session_id = some id;
  limit = none;
}

status_of_active :
    {V : Type 0} (info : SessionInfo V) → is_active info ≡ true → info.status ≡ active
status_of_active info on = go info.status on
  where
    go : (st : SessionStatus) → (elim st [ active ↦ true | ended ↦ false ]) ≡ true → st ≡ active
    go active e = refl
    go ended e = absurd (ground arith)

module _ {V T F R : Type 0} (null : V) (twin : TwinService V T) where
  -- The events of a session that is active are those that the event log shows for the query by its
  -- identifier alone.
  pub control_session_events-query :
      (id : String) (info : SessionInfo V) (s : AppState V T F R)
      → get id s.session_store.sessions ≡ some info
      → is_active info ≡ true
      → control_session_events null twin id s ≡ control_events null twin (session_query id) s
  unfolding control_session_events control_events
  control_session_events-query id info s found on =
      let same =
        filter-agree (is_of_session id) (matches (session_query id)) s.runtime.kernel.events
          (λ e. refl) in
      rw (found, status_of_active info on) (rw same refl)
