-- ===== src/Server/Sessions.antt =====
-- `SessionStore` and the handlers of sessions.
pub mod Handlers
use agent_sandbox.Server.Runtime.{full_snapshot}
use agent_sandbox.Common.BTreeMap.{insert, values}
use agent_sandbox.Common.Int.{ℤ}
use agent_sandbox.Kernel.{TwinKernel, TwinEvent, TwinState}
use agent_sandbox.Common.{
  ℕ, Option, String, find, Bool, ◌<>◌, padded_6, List, is_some_text, none, true, ◌+◌, filter, false,
  ◌%◌, some, u64_mod, length,
}
use agent_sandbox.Server.Types.{
  SessionStore, TwinService, SessionInfo, TwinRuntime, active, active, ended,
}

abbrev pub session_name : ℕ → String
session_name n = "sess_" <> padded_6 n

abbrev pub is_active : {V : Type 0} → SessionInfo V → Bool
is_active info = elim info.status [ active ↦ true | ended ↦ false ]

module _ {V : Type 0} where
  abbrev pub new_session : String → Option String → ℤ → SessionInfo V
  new_session session_id name now = record {
    session_id = session_id;
    name = name;
    status = active;
    created_at_unix_ms = now;
    ended_at_unix_ms = none;
    final_event_count = 0;
    final_snapshot = none;
    frozen_events = none;
  }

  unfoldable pub create : Option String → ℤ → SessionStore V → String × SessionStore V
  create name now store =
      let session_id = session_name store.next_session_id in
      (
        session_id,
        record {
          sessions = insert session_id (new_session session_id name now) store.sessions;
          next_session_id = (store.next_session_id + 1) % u64_mod;
        },
      )

  unfoldable pub active_session : SessionStore V → Option (SessionInfo V)
  active_session store = find is_active (values store.sessions)

-- The events of a session.
abbrev pub is_of_session : String → TwinEvent → Bool
is_of_session session_id e = is_some_text e.session_id session_id

abbrev pub events_of : {V : Type 0} → String → TwinKernel V → List TwinEvent
events_of session_id kernel = filter (is_of_session session_id) kernel.events

-- What the end of a session writes into it.
abbrev pub closed : {V : Type 0} → ℤ → TwinState V → List TwinEvent → SessionInfo V → SessionInfo V
closed now snapshot frozen info = record info {
  status = ended;
  ended_at_unix_ms = some now;
  final_event_count = length frozen;
  final_snapshot = some snapshot;
  frozen_events = some frozen;
}

module _ {V T : Type 0} (twin : TwinService V T) where
  unfoldable pub end_session_in_place : ℤ → TwinRuntime V T → SessionInfo V → SessionInfo V
  end_session_in_place now rt info =
      closed now (full_snapshot twin rt) (events_of info.session_id rt.kernel) info
