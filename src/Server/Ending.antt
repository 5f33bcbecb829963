-- ===== src/Server/Ending.antt =====
-- `control_end_session`, and what is read of an ended session.
use agent_sandbox.Common.BTreeMap.{get, get-update}
use agent_sandbox.Server.Runtime.{full_snapshot}
use agent_sandbox.Server.Sessions.{closed, events_of, is_active}
use agent_sandbox.Server.Consistent.{IsConsistent, is_frozen, shut-IsOrderly, active_at-shut}
use agent_sandbox.Kernel.{clear_active_session}
use agent_sandbox.Server.Sessions.Handlers.{with_kernel, control_end_session, with_session}
use agent_sandbox.Common.Int.{ℤ}
use agent_sandbox.Common.{
  String, if◌then◌else◌, inl, ◌≡◌, is_some_text, inr, ok, err, ◌⊎◌, length, arith, some, true,
  Option-cases, refl, eq_iff, Bool-cases, false,
}
use agent_sandbox.Server.Types.{
  TwinService, AppState, ApiError, SessionInfo, session_not_found, error_text,
}

module _ {V T F R : Type 0} (null : V) (twin : TwinService V T) (id : String) (now : ℤ)
    (s : AppState V T F R) where
  -- The state after the end of session `id`.
  abbrev pub after_end : AppState V T F R
  after_end =
      with_kernel (λ k. if is_some_text k.active_session id then clear_active_session k else k)
        (with_session id (closed now (full_snapshot twin s.runtime) (events_of id s.runtime.kernel))
          s)

  pub control_end_session_cases :
      ((e : ApiError) × (control_end_session null twin id now s ≡ (err e, s)))
      ⊎ ((info : SessionInfo V) × (get id s.session_store.sessions ≡ some info)
          × (is_active info ≡ true)
          × (control_end_session null twin id now s
              ≡ (ok (id, length (events_of id s.runtime.kernel)), after_end)))
  unfolding control_end_session
  control_end_session_cases = elim (Option-cases (get id s.session_store.sessions)) [
    | inl missing ↦ inl (session_not_found, rw missing refl)
    | inr (info, found) ↦ elim (Bool-cases (is_active info)) [
      | inl on ↦ inr (info, found, on, rw (found, on) refl)
      | inr off ↦ inl (
        record { status_code = 409; body = error_text "session already ended" },
        rw (found, off) refl,
      )
    ]
  ]

  after_end-IsConsistent : IsConsistent s → IsConsistent after_end
  unfolding clear_active_session
  after_end-IsConsistent h =
      let f = closed now (full_snapshot twin s.runtime) (events_of id s.runtime.kernel) in
      let store = s.session_store in
      let kept : (i : SessionInfo V) → get id store.sessions ≡ some i → is_frozen (f i) ≡ true =
        λ i at. ground arith in
      record {
        orderly = shut-IsOrderly store id f (λ i. refl) (λ i. refl) kept h.orderly;
        live = λ k e. ground (
          arith,
          active_at-shut store id f (λ i. refl) (λ i. refl) kept h.orderly k,
          h.live k,
          eq_iff id k,
          eq_iff k id,
        );
      }

  pub control_end_session-IsConsistent :
      IsConsistent s → IsConsistent (control_end_session null twin id now s).1
  control_end_session-IsConsistent h = elim control_end_session_cases [
    | inl (e, refused) ↦ rw refused h
    | inr (info, found, on, done) ↦ rw done (after_end-IsConsistent h)
  ]

  pub control_end_session-next :
      (control_end_session null twin id now s).1.session_store.next_session_id
      ≡ s.session_store.next_session_id
  control_end_session-next = elim control_end_session_cases [
    | inl (e, refused) ↦ rw refused refl
    | inr (info, found, on, done) ↦ rw done refl
  ]

  -- A session that has ended is not written again.
  pub control_end_session-keeps :
      (k : String) (old : SessionInfo V)
      → get k s.session_store.sessions ≡ some old
      → is_active old ≡ false
      → get k (control_end_session null twin id now s).1.session_store.sessions ≡ some old
  control_end_session-keeps k old there off = elim control_end_session_cases [
    | inl (e, refused) ↦ rw refused there
    | inr (info, found, on, done) ↦
        let f = closed now (full_snapshot twin s.runtime) (events_of id s.runtime.kernel) in
        rw done (ground (arith, get-update k id f s.session_store.sessions, eq_iff id k))
  ]
