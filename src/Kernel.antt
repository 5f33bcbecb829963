-- ===== src/Kernel.antt =====
-- The twin kernel (twins/crates/twin-kernel/src/lib.rs): configuration, revisioned state and the
-- event log. `V` is the type of `serde_json::Value`, and `null` its `Null`.
pub mod Log
pub mod Examples
use agent_sandbox.Common.{ℕ, ◌+◌, ◌%◌, String, Option, none, some, List, [], ◌∷◌, ◌++◌, u64_mod}
use agent_sandbox.Common.BTreeMap
use agent_sandbox.Common.BTreeMap.{BTreeMap}
use agent_sandbox.Common.Int.{ℤ, add_u64}

pub record TwinConfig : Type 0 where
  pub seed : ℕ
  pub start_time_unix_ms : ℤ

pub record TwinState (V : Type 0) : Type 0 where
  pub revision : ℕ
  pub metadata : BTreeMap String
  pub service_state : V

pub record TwinEvent : Type 0 where
  pub sequence : ℕ
  pub endpoint : String
  pub actor_id : Option String
  pub outcome : String
  pub detail : String
  pub operation : Option String
  pub resource : Option String
  pub request_id : Option String
  pub trace_id : Option String
  pub fault_id : Option String
  pub logical_time_unix_ms : ℤ
  pub session_id : Option String

pub record TwinEventContext : Type 0 where
  pub operation : Option String
  pub resource : Option String
  pub request_id : Option String
  pub trace_id : Option String

-- `TwinEventContext::default()`
abbrev pub default_context : TwinEventContext
default_context = record { operation = none; resource = none; request_id = none; trace_id = none }

pub record TwinKernel (V : Type 0) : Type 0 where
  pub config : TwinConfig
  pub state : TwinState V
  pub events : List TwinEvent
  pub next_event_sequence : ℕ
  pub active_session : Option String

module _ {V : Type 0} (null : V) where
  abbrev pub initial_state : TwinState V
  initial_state = record { revision = 0; metadata = []; service_state = null }

  unfoldable pub new : TwinConfig → TwinKernel V
  new config = record {
    config = config;
    state = initial_state;
    events = [];
    next_event_sequence = 1;
    active_session = none;
  }

  -- The active session stays.
  unfoldable pub reset : TwinConfig → TwinKernel V → TwinKernel V
  reset config k = record k {
    config = config;
    state = initial_state;
    events = [];
    next_event_sequence = 1;
  }

module _ {V : Type 0} where
  unfoldable pub snapshot : TwinKernel V → TwinState V
  snapshot k = k.state

  unfoldable pub restore : TwinState V → TwinKernel V → TwinKernel V
  restore state k = record k { state = state }

  unfoldable pub set_metadata : String → String → TwinKernel V → TwinKernel V
  set_metadata key value k = record k {
    state = record k.state {
      revision = (k.state.revision + 1) % u64_mod;
      metadata = BTreeMap.insert key value k.state.metadata;
    };
  }

  -- The event that a call records.
  abbrev pub event_of :
      String
      → Option String
      → String
      → String
      → Option String
      → TwinEventContext
      → TwinKernel V
      → TwinEvent
  event_of endpoint actor_id outcome detail fault_id context k = record {
    sequence = k.next_event_sequence;
    endpoint = endpoint;
    actor_id = actor_id;
    outcome = outcome;
    detail = detail;
    operation = context.operation;
    resource = context.resource;
    request_id = context.request_id;
    trace_id = context.trace_id;
    fault_id = fault_id;
    logical_time_unix_ms = add_u64 k.config.start_time_unix_ms k.state.revision;
    session_id = k.active_session;
  }

  unfoldable pub record_event_with_context :
      String
      → Option String
      → String
      → String
      → Option String
      → TwinEventContext
      → TwinKernel V
      → TwinKernel V
  record_event_with_context endpoint actor_id outcome detail fault_id context k = record k {
    events = k.events ++ (event_of endpoint actor_id outcome detail fault_id context k ∷ []);
    next_event_sequence = (k.next_event_sequence + 1) % u64_mod;
  }

  unfoldable pub record_event :
      String → Option String → String → String → Option String → TwinKernel V → TwinKernel V
  unfolding record_event_with_context
  record_event endpoint actor_id outcome detail fault_id k =
      record_event_with_context endpoint actor_id outcome detail fault_id default_context k

  unfoldable pub set_active_session : String → TwinKernel V → TwinKernel V
  set_active_session session_id k = record k { active_session = some session_id }

  unfoldable pub clear_active_session : TwinKernel V → TwinKernel V
  clear_active_session k = record k { active_session = none }
