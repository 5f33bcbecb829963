-- ===== src/Server/Race.antt =====
-- Two requests `control_create_session` whose locks interleave.
use agent_sandbox.Common.BTreeMap.{get, insert, get-insert}
use agent_sandbox.Server.Consistent.{active_at, session_name-injective}
use agent_sandbox.Common.Int.{ℤ}
use agent_sandbox.Server.Sessions.{create, active_session, session_name, new_session}
use agent_sandbox.Server.Sessions.Handlers.{replace_session, start_session, active_id}
use agent_sandbox.Common.{
  Option, String, ◌>>=◌, ◌≡◌, none, ◌+◌, pure, ◌<◌, u64_mod, ok, ◌≢◌, true, ◌%◌, arith, eq_iff,
  eq_refl, refl,
}
use agent_sandbox.Server.Types.{TwinService, AppState, Handler}

module _ {V T F R : Type 0} (null : V) (twin : TwinService V T) where
  -- Both requests ask for the active session before either creates one.
  unfoldable pub create_sessions_interleaved :
      Option String → ℤ → Option String → ℤ → Handler V T F R (String × String)
  create_sessions_interleaved name1 now1 name2 now2 = do
    old1 ← active_id
    old2 ← active_id
    id1 ← replace_session null twin none name1 now1 old1
    id2 ← replace_session null twin none name2 now2 old2
    pure (id1, id2)

  -- If no session is active, then two requests without a seed that interleave so are both accepted,
  -- and leave two different sessions active, as long as the counter does not wrap around.
  pub create_sessions_interleaved_lem :
      (name1 : Option String) (now1 : ℤ) (name2 : Option String) (now2 : ℤ) (s : AppState V T F R)
      → active_session s.session_store ≡ none
      → s.session_store.next_session_id + 2 < u64_mod
      → (id1 : String) × (id2 : String) × ((create_sessions_interleaved name1 now1 name2 now2 s).0
          ≡ ok (id1, id2))
        × (id1 ≢ id2)
        × (let sessions =
              (create_sessions_interleaved name1 now1 name2 now2 s).1.session_store.sessions in
            (active_at (get id1 sessions) ≡ true) × (active_at (get id2 sessions) ≡ true))
  unfolding create_sessions_interleaved replace_session start_session create
  create_sessions_interleaved_lem name1 now1 name2 now2 s quiet small =
      let n = s.session_store.next_session_id in
      let id1 = session_name n in
      let id2 = session_name ((n + 1) % u64_mod) in
      let differ : id1 ≢ id2 = λ e. omega (arith, session_name-injective n ((n + 1) % u64_mod) e) in
      let first = new_session {V = V} id1 name1 now1 in
      let second = new_session {V = V} id2 name2 now2 in
      let m = s.session_store.sessions in
      let both = insert id2 second (insert id1 first m) in
      let at1 : active_at (get id1 both) ≡ true = ground (
        arith,
        get-insert id1 id2 second (insert id1 first m),
        get-insert id1 id1 first m,
        eq_iff id2 id1,
        eq_refl id1,
        differ,
      ) in
      let at2 : active_at (get id2 both) ≡ true =
        ground (arith, get-insert id2 id2 second (insert id1 first m), eq_refl id2) in
      rw quiet (id1, id2, refl, differ, (at1, at2))
