-- ===== src/Server/Control.antt =====
-- The control handlers. The JSON that they read is decoded, and `is_object` is serde's test.
use agent_sandbox.Server.Runtime
use agent_sandbox.Kernel
use agent_sandbox.Server.Runtime.{full_snapshot, full_restore}
use agent_sandbox.Server.Sessions.Handlers.{seeded, with_kernel, with_runtime}
use agent_sandbox.Common.Int.{pos, ℤ, leb_ℤ}
use agent_sandbox.Common.{
  Option, Result, Bool, String, ℕ, gets, List, is_some_text, true, [], TwinError, ◌>>◌, modify,
  ◌&&◌, filter, require, some, str_eq, take, ok, none, not, err,
}
use agent_sandbox.Kernel.{TwinEvent, TwinConfig, TwinState, clear_active_session}
use agent_sandbox.Server.Types.{
  TwinService, AppState, Handler, TwinRuntime, seed_not_object, seed_failed, message,
}

abbrev pub seed_config : TwinConfig
seed_config = record { seed = 0; start_time_unix_ms = pos 0 }

-- The filters of `EventQueryParams`, each passed if it is absent.
pub record EventQueryParams : Type 0 where
  pub actor_id : Option String
  pub endpoint : Option String
  pub action : Option String
  pub outcome : Option String
  pub after : Option ℤ
  pub before : Option ℤ
  pub session_id : Option String
  pub limit : Option ℕ

abbrev pub given : {A : Type 0} → Option A → (A → Bool) → Bool
given none p = true
given (some a) p = p a

abbrev pub matches : EventQueryParams → TwinEvent → Bool
matches params e =
    given params.actor_id (λ a. is_some_text e.actor_id a)
    && given params.endpoint (λ t. str_eq e.endpoint t)
    && given params.action (λ t. str_eq e.detail t)
    && given params.outcome (λ t. str_eq e.outcome t)
    && given params.after (λ t. not (leb_ℤ e.logical_time_unix_ms t))
    && given params.before (λ t. not (leb_ℤ t e.logical_time_unix_ms))
    && given params.session_id (λ t. is_some_text e.session_id t)

abbrev pub limited : Option ℕ → List TwinEvent → List TwinEvent
limited none es = es
limited (some n) es = take n es

module _ {V T F R : Type 0} (null : V) (twin : TwinService V T) where
  -- The faults and the counter of decisions are cleared.
  abbrev pub clear_faults : AppState V T F R → AppState V T F R
  clear_faults s = record s { scenario = record s.scenario { faults = []; decision_index = 0 } }

  -- The sessions are left alone.
  unfoldable pub control_reset : TwinConfig → Handler V T F R (Unit {0})
  control_reset config = do
    modify (λ s. with_kernel clear_active_session s)
    modify (λ s. with_runtime (Runtime.reset null twin config) s)
    modify clear_faults

  abbrev pub seed_or_fail :
      Result TwinError (Unit {0}) × TwinRuntime V T → Handler V T F R (Unit {0})
  seed_or_fail (ok _, rt) s = (ok tt, record s { runtime = rt })
  seed_or_fail (err e, rt) s = (
    err (record { status_code = 400; body = seed_failed (message e) }),
    record s { runtime = rt },
  )

  unfoldable pub control_seed : (V → Bool) → V → Handler V T F R (Unit {0})
  control_seed is_object body = do
    require (is_object body) (record { status_code = 400; body = seed_not_object })
    modify (λ s. with_kernel clear_active_session s)
    modify (λ s. with_runtime (Runtime.reset null twin seed_config) s)
    (λ s. seed_or_fail (Runtime.seed twin body s.runtime) s)
    modify clear_faults

  unfoldable pub control_snapshot : Handler V T F R (TwinState V)
  control_snapshot = gets (λ s. full_snapshot twin s.runtime)

  unfoldable pub control_restore : TwinState V → Handler V T F R (Unit {0})
  control_restore snapshot s = seeded null twin (full_restore twin snapshot s.runtime) s

  unfoldable pub control_events : EventQueryParams → Handler V T F R (List TwinEvent)
  control_events params =
      gets (λ s. limited params.limit (filter (matches params) s.runtime.kernel.events))

  -- The revision in the response.
  unfoldable pub health : Handler V T F R ℕ
  health = gets (λ s. (Kernel.snapshot s.runtime.kernel).revision)
