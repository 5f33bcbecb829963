-- ===== src/Server/Creating.antt =====
-- `control_create_session`: the session before it is ended, and the new one is the only one.
pub mod Kept
use agent_sandbox.Server.Runtime
use agent_sandbox.Kernel
use agent_sandbox.Common.BTreeMap.Search.{find-values-none, find-values-some}
use agent_sandbox.Server.Sessions.Handlers.{
  end_active, id_of, end_if_active, replace_session, start_session, control_create_session,
}
use agent_sandbox.Common.BTreeMap.{get, values}
use agent_sandbox.Kernel.{clear_active_session, set_active_session}
use agent_sandbox.Server.Sessions.{active_session, end_session_in_place, is_active, create}
use agent_sandbox.Common.Int.{ℤ}
use agent_sandbox.Server.Consistent.{
  IsConsistent, IsOrderly, active_at, is_frozen, shut-IsOrderly, active_at-shut, create-IsOrderly,
  active_at-create,
}
use agent_sandbox.Common.{
  String, ◌≡◌, arith, none, Option, eq_iff, str_eq, false, Option-cases, some, [], true, inl, inr,
  refl, find, ◌+◌, ◌<◌, Bool-cases, u64_mod, err, ◌⊎◌, ok, Result-cases,
}
use agent_sandbox.Server.Types.{
  TwinService, AppState, TwinRuntime, SessionInfo, ApiError, map_error,
}

-- No session is active, in the store or in the kernel.
pub record IsIdle {V T F R : Type 0} (s : AppState V T F R) : Type 0 where
  pub orderly : IsOrderly s.session_store
  pub quiet : (k : String) → active_at (get k s.session_store.sessions) ≡ false
  pub alone : s.runtime.kernel.active_session ≡ none

-- Session `id` is the active one, in the store and in the kernel, and has no events yet.
pub record IsStarted {V T F R : Type 0} (id : String) (s : AppState V T F R) : Type 0 where
  pub orderly : IsOrderly s.session_store
  pub only : (k : String) → active_at (get k s.session_store.sessions) ≡ str_eq id k
  pub tagged : s.runtime.kernel.active_session ≡ some id
  pub silent : s.runtime.kernel.events ≡ []

module _ {V T F R : Type 0} (s : AppState V T F R) where
  pub IsIdle-IsConsistent : IsIdle s → IsConsistent s
  IsIdle-IsConsistent idle = record {
    orderly = idle.orderly;
    live = λ k e. absurd (ground (arith, idle.alone));
  }

  pub IsStarted-IsConsistent : (id : String) → IsStarted id s → IsConsistent s
  IsStarted-IsConsistent id h = record {
    orderly = h.orderly;
    live = λ k e. ground (arith, h.tagged, h.only k, eq_iff id k);
  }

  pub quiet_of_none :
      IsConsistent s
      → active_session s.session_store ≡ none
      → (k : String) → active_at (get k s.session_store.sessions) ≡ false
  unfolding active_session
  quiet_of_none h e k = elim (Option-cases (get k s.session_store.sessions)) [
    | inl missing ↦ ground arith
    | inr (info, found) ↦
        ground (arith, find-values-none is_active s.session_store.sessions k info e found)
  ]

module _ {V T F R : Type 0} (null : V) (twin : TwinService V T) (now : ℤ) (s : AppState V T F R)
    (h : IsConsistent s) where
  end_if_active-kept :
      (rt : TwinRuntime V T) (i : SessionInfo V)
      → is_active i ≡ true
      → is_frozen (end_if_active twin now rt i) ≡ true
  unfolding end_session_in_place
  end_if_active-kept rt i on = ground arith

  same_id : (i : SessionInfo V) → (end_if_active twin now s.runtime i).session_id ≡ i.session_id
  unfolding end_session_in_place
  same_id i = ground arith

  stopped : (i : SessionInfo V) → is_active (end_if_active twin now s.runtime i) ≡ false
  unfolding end_session_in_place
  stopped i = ground arith

  pub found_active :
      (info : SessionInfo V)
      → active_session s.session_store ≡ some info
      → find is_active (values s.session_store.sessions) ≡ some info
  unfolding active_session
  found_active info e = e

  pub end_active-IsIdle :
      (o : Option (SessionInfo V))
      → active_session s.session_store ≡ o
      → IsIdle (end_active null twin now (id_of o) s).1
        × ((end_active null twin now (id_of o) s).1.session_store.next_session_id
            ≡ s.session_store.next_session_id)
  unfolding clear_active_session
  end_active-IsIdle none e = (
    record {
      orderly = h.orderly;
      quiet = quiet_of_none s h e;
      alone = elim (Option-cases s.runtime.kernel.active_session) [
        | inl alone ↦ alone
        | inr (k, set) ↦ absurd (ground (arith, h.live k set, quiet_of_none s h e k))
      ];
    },
    refl,
  )
  end_active-IsIdle (some info) e =
      let id = info.session_id in
      let store = s.session_store in
      let f = end_if_active twin now s.runtime in
      let (key, found, on) =
        find-values-some is_active store.sessions info h.orderly.sorted (found_active info e) in
      let named : id ≡ key = h.orderly.own key info found in
      let here : get id store.sessions ≡ some info = cc in
      let kept : (i : SessionInfo V) → get id store.sessions ≡ some i → is_frozen (f i) ≡ true =
        λ i at. end_if_active-kept s.runtime i (ground (arith, here)) in
      (
        record {
          orderly = shut-IsOrderly store id f same_id stopped kept h.orderly;
          quiet = λ k. elim (Bool-cases (active_at (get k store.sessions))) [
            | inr off ↦ ground (arith, active_at-shut store id f same_id stopped kept h.orderly k)
            | inl also ↦
                let alike = h.orderly.one id k (ground (arith, here)) also in
                ground
                  (arith, active_at-shut store id f same_id stopped kept h.orderly k, eq_iff id k)
          ];
          alone = refl;
        },
        refl,
      )

-- What follows once the session before is ended.
module _ {V T F R : Type 0} (null : V) (twin : TwinService V T) where
  -- If the seed is refused, there is no active session; else the new session is the active one.
  start_session_cases :
      (seed : Option V) (name : Option String) (now : ℤ) (s : AppState V T F R)
      → IsIdle s
      → s.session_store.next_session_id + 1 < u64_mod
      → let out = start_session null twin seed name now s in
        ((e : ApiError) × (out.0 ≡ err e) × IsIdle out.1)
        ⊎ ((id : String) × (out.0 ≡ ok id) × IsStarted id out.1)
  unfolding start_session set_active_session Runtime.reset Kernel.reset Runtime.seed
  start_session_cases none name now s idle small = inr (
    (create name now s.session_store).0,
    refl,
    record {
      orderly = create-IsOrderly s.session_store name now idle.orderly small idle.quiet;
      only = active_at-create s.session_store name now idle.orderly small idle.quiet;
      tagged = refl;
      silent = refl;
    },
  )
  start_session_cases (some value) name now s idle small =
      elim (Result-cases (twin.seed_from_scenario value twin.default).0) [
        | inl (tt, fine) ↦ rw fine (
            inr (
              (create name now s.session_store).0,
              refl,
              record {
                orderly = create-IsOrderly s.session_store name now idle.orderly small idle.quiet;
                only = active_at-create s.session_store name now idle.orderly small idle.quiet;
                tagged = refl;
                silent = refl;
              },
            ))
        | inr (why, broken) ↦ rw broken (
            inl (
              map_error why,
              refl,
              record { orderly = idle.orderly; quiet = idle.quiet; alone = idle.alone },
            ))
      ]

  pub replace_session_lem :
      (seed : Option V) (name : Option String) (now : ℤ) (old : Option String)
      (s : AppState V T F R)
      → replace_session null twin seed name now old s
        ≡ start_session null twin seed name now (end_active null twin now old s).1
  unfolding replace_session
  replace_session_lem seed name now none s = refl
  replace_session_lem seed name now (some id) s = refl

  -- If the seed of a new session is refused in a consistent state, no session is active after it, in
  -- the store or in the kernel; else the new session is
  -- the only active one in the store, the kernel tags events with it, and the log is empty.
  pub control_create_session_cases :
      (seed : Option V) (name : Option String) (now : ℤ) (s : AppState V T F R)
      → IsConsistent s
      → s.session_store.next_session_id + 1 < u64_mod
      → let out = control_create_session null twin seed name now s in
        ((e : ApiError) × (out.0 ≡ err e) × IsIdle out.1)
        ⊎ ((id : String) × (out.0 ≡ ok id) × IsStarted id out.1)
  unfolding control_create_session
  control_create_session_cases seed name now s h small =
      let old = id_of (active_session s.session_store) in
      let between = (end_active null twin now old s).1 in
      let (idle, same) =
        end_active-IsIdle null twin now s h (active_session s.session_store) refl in
      rw (replace_session_lem seed name now old s)
        (start_session_cases seed name now between idle (rw same small))
