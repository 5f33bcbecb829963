-- ===== src/Kernel/Log.antt =====
-- The event log: consecutive sequence numbers whatever the calls, and the tag of the session.
use agent_sandbox.Common.{
  ℕ, ◌+◌, ◌≤◌, ◌<◌, String, ◌≡◌, Option, List, [], ◌∷◌, ◌++◌, arith, length, length-append, u64_mod,
}
use agent_sandbox.Kernel.{
  TwinConfig, TwinState, TwinEvent, TwinEventContext, TwinKernel, event_of, new, reset, restore,
  set_metadata, record_event_with_context, set_active_session, clear_active_session,
}

-- The calls that change a kernel.
pub data Call (V : Type 0) : Type 0 where
  reset_to : TwinConfig → Call V
  restore_to : TwinState V → Call V
  put_metadata : String → String → Call V
  log_event : String → Option String → String → String → Option String → TwinEventContext → Call V
  start_session : String → Call V
  end_session : Call V

module _ {V : Type 0} (null : V) where
  unfoldable pub perform : Call V → TwinKernel V → TwinKernel V
  unfolding reset restore set_metadata record_event_with_context set_active_session
      clear_active_session
  perform (reset_to config) k = reset null config k
  perform (restore_to state) k = restore state k
  perform (put_metadata key value) k = set_metadata key value k
  perform (log_event endpoint actor_id outcome detail fault_id context) k =
      record_event_with_context endpoint actor_id outcome detail fault_id context k
  perform (start_session session_id) k = set_active_session session_id k
  perform end_session k = clear_active_session k

  unfoldable pub perform_all : List (Call V) → TwinKernel V → TwinKernel V
  perform_all [] k = k
  perform_all (c ∷ cs) k = perform_all cs (perform c k)

-- The events are numbered from `n` on, without a gap.
abbrev pub NumberedFrom : ℕ → List TwinEvent → Type 0
NumberedFrom n [] = Unit
NumberedFrom n (e ∷ es) = (e.sequence ≡ n) × NumberedFrom (n + 1) es

NumberedFrom-append :
    (n : ℕ) (es : List TwinEvent) (e : TwinEvent)
    → NumberedFrom n es
    → e.sequence ≡ n + length es
    → NumberedFrom n (es ++ e ∷ [])
NumberedFrom-append n [] e h q = (omega arith, tt)
NumberedFrom-append n (x ∷ es) e (h, hs) q = (h, NumberedFrom-append (n + 1) es e hs (omega arith))

pub record IsNumbered {V : Type 0} (k : TwinKernel V) : Type 0 where
  pub next : k.next_event_sequence ≡ length k.events + 1
  pub numbered : NumberedFrom 1 k.events

module _ {V : Type 0} (null : V) where
  perform-IsNumbered :
      (c : Call V) (k : TwinKernel V)
      → length k.events + 2 < u64_mod
      → IsNumbered k
      → IsNumbered (perform null c k) × (length (perform null c k).events ≤ length k.events + 1)
  unfolding perform
  perform-IsNumbered (reset_to config) k small h =
      (record { next = omega arith; numbered = tt }, omega arith)
  perform-IsNumbered (log_event endpoint actor_id outcome detail fault_id context) k small h = (
    record {
      next = omega (
        arith,
        h.next,
        length-append k.events (event_of endpoint actor_id outcome detail fault_id context k ∷ []),
      );
      numbered = NumberedFrom-append 1 k.events _ h.numbered (omega (arith, h.next));
    },
    omega (
      arith,
      length-append k.events (event_of endpoint actor_id outcome detail fault_id context k ∷ []),
    ),
  )
  perform-IsNumbered (restore_to state) k small h =
      (record { next = h.next; numbered = h.numbered }, omega arith)
  perform-IsNumbered (put_metadata key value) k small h =
      (record { next = h.next; numbered = h.numbered }, omega arith)
  perform-IsNumbered (start_session session_id) k small h =
      (record { next = h.next; numbered = h.numbered }, omega arith)
  perform-IsNumbered end_session k small h =
      (record { next = h.next; numbered = h.numbered }, omega arith)

  perform_all-IsNumbered :
      (cs : List (Call V)) (k : TwinKernel V)
      → length k.events + length cs + 2 ≤ u64_mod
      → IsNumbered k
      → IsNumbered (perform_all null cs k)
  unfolding perform_all
  perform_all-IsNumbered [] k small h = h
  perform_all-IsNumbered (c ∷ cs) k small h =
      let (h', le) = perform-IsNumbered c k (omega arith) h in
      perform_all-IsNumbered cs (perform null c k) (omega arith) h'

  -- Whatever calls a new kernel gets, resets and restores among them, its events are numbered 1, 2,
  -- 3, … without a gap and the next number is one past the last, as long as the number of calls
  -- leaves the counter below its wrap-around.
  pub new-IsNumbered :
      (config : TwinConfig) (cs : List (Call V))
      → length cs + 2 ≤ u64_mod
      → IsNumbered (perform_all null cs (new null config))
  new-IsNumbered config cs small =
      perform_all-IsNumbered cs (new null config) (unfold new in omega arith)
        (record { next = unfold new in omega arith; numbered = unfold new in tt })
