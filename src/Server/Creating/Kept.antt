-- ===== src/Server/Creating/Kept.antt =====
-- What `control_create_session` does to the sessions that are there, and the numbering.
use agent_sandbox.Server.Runtime.{full_snapshot}
use agent_sandbox.Common.BTreeMap.Search.{find-values-some}
use agent_sandbox.Server.Consistent.{create-fresh, IsConsistent}
use agent_sandbox.Common.BTreeMap.{get, get-insert, get-update}
use agent_sandbox.Server.Creating.{
  end_active-IsIdle, replace_session_lem, quiet_of_none, IsIdle, found_active, IsStarted,
  control_create_session_cases,
}
use agent_sandbox.Server.Sessions.{
  create, is_active, session_name, new_session, active_session, end_session_in_place, events_of,
}
use agent_sandbox.Server.Sessions.Handlers.{
  start_session, end_active, end_if_active, id_of, control_create_session,
}
use agent_sandbox.Common.{
  Option, String, ◌+◌, ◌≡◌, ◌<◌, some, u64_mod, false, arith, eq_iff, none, inl, inr, Result-cases,
  ◌⊎◌, refl, ◌≤◌, true, err, length, ok, ◌∙◌, sym,
}
use agent_sandbox.Common.Int.{ℤ}
use agent_sandbox.Server.Types.{TwinService, AppState, SessionInfo, SessionStore, ApiError, ended}
use agent_sandbox.Server.Runtime

-- Session `k` was `old` in the state `s`, and ended as `new`: with its events, their number and the
-- snapshot of `s`.
pub record HasEnded {V T F R : Type 0} (twin : TwinService V T) (now : ℤ) (k : String)
    (s : AppState V T F R) (old new : SessionInfo V) : Type 0 where
  pub status : new.status ≡ ended
  pub ended_at : new.ended_at_unix_ms ≡ some now
  pub events : new.frozen_events ≡ some (events_of k s.runtime.kernel)
  pub count : new.final_event_count ≡ length (events_of k s.runtime.kernel)
  pub snapshot : new.final_snapshot ≡ some (full_snapshot twin s.runtime)
  pub named :
      (new.session_id ≡ old.session_id)
      × (new.name ≡ old.name)
      × (new.created_at_unix_ms ≡ old.created_at_unix_ms)

module _ {V : Type 0} (now : ℤ) where
  create-next :
      (name : Option String) (store : SessionStore V)
      → store.next_session_id + 1 < u64_mod
      → (create name now store).1.next_session_id ≡ store.next_session_id + 1
  unfolding create
  create-next name store small = omega arith

  create-keeps :
      (name : Option String) (store : SessionStore V) (k : String) (info : SessionInfo V)
      → get (create name now store).0 store.sessions ≡ none
      → get k store.sessions ≡ some info
      → get k (create name now store).1.sessions ≡ some info
  unfolding create
  create-keeps name store k info fresh there =
      let id = session_name store.next_session_id in
      ground (arith, get-insert k id (new_session id name now) store.sessions, eq_iff id k)

module _ {V T F R : Type 0} (null : V) (twin : TwinService V T) (now : ℤ) where
  end_active-keeps :
      (old : Option String) (s : AppState V T F R) (k : String) (info : SessionInfo V)
      → get k s.session_store.sessions ≡ some info
      → is_active info ≡ false
      → get k (end_active null twin now old s).1.session_store.sessions ≡ some info
  end_active-keeps none s k info there off = there
  end_active-keeps (some id) s k info there off =
      ground (arith, get-update k id (end_if_active twin now s.runtime) s.session_store.sessions)

  -- The store has one session more, or is as it was.
  start_session-store :
      (seed : Option V) (name : Option String) (s : AppState V T F R)
      → let t = (start_session null twin seed name now s).1.session_store in
        (t ≡ s.session_store) ⊎ (t ≡ (create name now s.session_store).1)
  unfolding start_session Runtime.reset Runtime.seed
  start_session-store none name s = inr refl
  start_session-store (some value) name s =
      elim (Result-cases (twin.seed_from_scenario value twin.default).0) [
        | inl (tt, fine) ↦ rw fine (inr refl)
        | inr (why, broken) ↦ rw broken (inl refl)
      ]

  module _ (seed : Option V) (name : Option String) (s : AppState V T F R) (h : IsConsistent s)
      (small : s.session_store.next_session_id + 1 < u64_mod) where
    abbrev between : AppState V T F R
    between = (end_active null twin now (id_of (active_session s.session_store)) s).1

    created :
        let t = (control_create_session null twin seed name now s).1.session_store in
        (t ≡ between.session_store) ⊎ (t ≡ (create name now between.session_store).1)
    unfolding control_create_session
    created =
        rw (replace_session_lem null twin seed name now (id_of (active_session s.session_store)) s)
          (start_session-store seed name between)

    pub control_create_session-next :
        (control_create_session null twin seed name now s).1.session_store.next_session_id
        ≤ s.session_store.next_session_id + 1
    control_create_session-next =
        let (idle, same) =
          end_active-IsIdle null twin now s h (active_session s.session_store) refl in
        elim created [
          | inl e ↦ rw (e, same) (omega arith)
          | inr e ↦
              rw (e, create-next now name between.session_store (rw same small), same) (omega arith)
        ]

    -- What the store has once the session before is ended stays.
    carried :
        (k : String) (info : SessionInfo V)
        → get k between.session_store.sessions ≡ some info
        → get k (control_create_session null twin seed name now s).1.session_store.sessions
          ≡ some info
    carried k info there =
        let (idle, same) =
          end_active-IsIdle null twin now s h (active_session s.session_store) refl in
        elim created [
          | inl e ↦ rw e there
          | inr e ↦ rw e (
              create-keeps now name between.session_store k info
                (create-fresh between.session_store name now idle.orderly (rw same small)
                  idle.quiet)
                there)
        ]

    -- A session that has ended is not written again.
    pub control_create_session-keeps :
        (k : String) (info : SessionInfo V)
        → get k s.session_store.sessions ≡ some info
        → is_active info ≡ false
        → get k (control_create_session null twin seed name now s).1.session_store.sessions
          ≡ some info
    control_create_session-keeps k info there off =
        carried k info
          (end_active-keeps (id_of (active_session s.session_store)) s k info there off)

    ended_between :
        (o : Option (SessionInfo V)) (k : String) (info : SessionInfo V)
        → active_session s.session_store ≡ o
        → get k s.session_store.sessions ≡ some info
        → is_active info ≡ true
        → get k (end_active null twin now (id_of o) s).1.session_store.sessions
          ≡ some (end_if_active twin now s.runtime info)
    ended_between none k info e there on = absurd (ground (arith, quiet_of_none s h e k, there, on))
    ended_between (some old) k info e there on =
        let store = s.session_store in
        let (key, found, live) =
          find-values-some is_active store.sessions old h.orderly.sorted
            (found_active null twin now s h old e) in
        let alike = h.orderly.one k key (ground (arith, there, on)) (ground (arith, found, live)) in
        let named : old.session_id ≡ k = h.orderly.own key old found ∙ sym alike in
        ground (
          arith,
          get-update k old.session_id (end_if_active twin now s.runtime) store.sessions,
          there,
          named,
          eq_iff old.session_id k,
        )

    end_if_active-HasEnded :
        (k : String) (info : SessionInfo V)
        → info.session_id ≡ k
        → is_active info ≡ true
        → HasEnded twin now k s info (end_if_active twin now s.runtime info)
    unfolding end_session_in_place
    end_if_active-HasEnded k info own on =
        rw (on, own)
          (record {
            status = refl;
            ended_at = refl;
            events = refl;
            count = refl;
            snapshot = refl;
            named = (refl, refl, refl);
          })

    -- Creating a session in a consistent state ends the session that was active: it stays under its
    -- identifier, with its events in the log, their number and the snapshot of that moment. The
    -- sessions that had ended stay as they were. If the seed is refused, no session is active after
    -- it, in the store or in the kernel; else the new session is the only active one in the store,
    -- the kernel tags events with it, and the log is empty. The counter of sessions must not be about
    -- to wrap around.
    pub control_create_session_lem :
        let out = control_create_session null twin seed name now s in
        (((e : ApiError) × (out.0 ≡ err e) × IsIdle out.1)
          ⊎ ((id : String) × (out.0 ≡ ok id) × IsStarted id out.1))
        × ((k : String) (info : SessionInfo V)
            → get k s.session_store.sessions ≡ some info
            → is_active info ≡ true
            → (new : SessionInfo V) × (get k out.1.session_store.sessions ≡ some new)
              × HasEnded twin now k s info new)
        × ((k : String) (info : SessionInfo V)
            → get k s.session_store.sessions ≡ some info
            → is_active info ≡ false
            → get k out.1.session_store.sessions ≡ some info)
    control_create_session_lem = (
      control_create_session_cases null twin seed name now s h small,
      (λ k info there on. (
        end_if_active twin now s.runtime info,
        carried k _ (ended_between (active_session s.session_store) k info refl there on),
        end_if_active-HasEnded k info (h.orderly.own k info there) on,
      )),
      control_create_session-keeps,
    )
