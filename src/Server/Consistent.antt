-- ===== src/Server/Consistent.antt =====
-- The invariant of the session store and the kernel.
use agent_sandbox.Common.Text.Decimal.{padded_6-injective}
use agent_sandbox.Common.Int.{ℤ}
use agent_sandbox.Server.Sessions.{is_active, session_name, create, new_session}
use agent_sandbox.Kernel.{TwinEvent}
use agent_sandbox.Common.BTreeMap.{get, is_some, update, get-update, get-insert}
use agent_sandbox.Common.BTreeMap.Order.{IsSorted, IsSorted-update, IsSorted-insert}
use agent_sandbox.Common.{
  Option, List, Bool, String, false, ◌≡◌, ℕ, some, ◌&&◌, some, length, true, none, ◌==◌, ◌<◌,
  if◌then◌else◌, str_eq, Option-cases, inl, arith, inr, ◌⊎◌, ◌+◌, Bool-cases, ◌∙◌, sym, eq_iff,
  u64_mod, strip_prefix-append, padded_6, ap, strip_prefix,
}
use agent_sandbox.Server.Types.{SessionStore, SessionInfo, AppState}

abbrev pub active_at : {V : Type 0} → Option (SessionInfo V) → Bool
active_at none = false
active_at (some info) = is_active info

abbrev pub counts : Option (List TwinEvent) → ℕ → Bool
counts none n = false
counts (some es) n = length es == n

-- A snapshot and a list of events are there, and the count is that of the list.
abbrev pub is_frozen : {V : Type 0} → SessionInfo V → Bool
is_frozen info = is_some info.final_snapshot && counts info.frozen_events info.final_event_count

pub record IsOrderly {V : Type 0} (store : SessionStore V) : Type 0 where
  pub sorted : IsSorted store.sessions
  -- every session stands under its own identifier, which a number below the next one makes
  pub own :
      (k : String) (info : SessionInfo V) → get k store.sessions ≡ some info → info.session_id ≡ k
  pub counted :
      (k : String) (info : SessionInfo V)
      → get k store.sessions ≡ some info
      → (n : ℕ) × (k ≡ session_name n) × (n < store.next_session_id)
  -- at most one session is active
  pub one :
      (j k : String)
      → active_at (get j store.sessions) ≡ true
      → active_at (get k store.sessions) ≡ true
      → j ≡ k
  -- the others are frozen
  pub frozen :
      (k : String) (info : SessionInfo V)
      → get k store.sessions ≡ some info
      → is_active info ≡ false
      → is_frozen info ≡ true

-- The store is orderly, and the kernel's session is active in it.
pub record IsConsistent {V T F R : Type 0} (s : AppState V T F R) : Type 0 where
  pub orderly : IsOrderly s.session_store
  pub live :
      (k : String)
      → s.runtime.kernel.active_session ≡ some k
      → active_at (get k s.session_store.sessions) ≡ true

module _ {V : Type 0} (store : SessionStore V) (id : String) (f : SessionInfo V → SessionInfo V)
    (same_id : (i : SessionInfo V) → (f i).session_id ≡ i.session_id)
    (stopped : (i : SessionInfo V) → is_active (f i) ≡ false)
    (kept : (i : SessionInfo V) → get id store.sessions ≡ some i → is_frozen (f i) ≡ true)
    (h : IsOrderly store) where
  abbrev shut : SessionStore V
  shut = record store { sessions = update id f store.sessions }

  pub active_at-shut :
      (k : String)
      → active_at (get k (update id f store.sessions))
        ≡ (if str_eq id k then false else active_at (get k store.sessions))
  active_at-shut k = elim (Option-cases (get k store.sessions)) [
    | inl missing ↦ ground (arith, get-update k id f store.sessions)
    | inr (i, found) ↦ ground (arith, get-update k id f store.sessions, stopped i)
  ]

  get-shut :
      (k : String) (info : SessionInfo V)
      → get k (update id f store.sessions) ≡ some info
      → (i : SessionInfo V) × (get k store.sessions ≡ some i)
        × (((id ≡ k) × (info ≡ f i)) ⊎ ((str_eq id k ≡ false) × (info ≡ i)))
  get-shut k info e = elim (Option-cases (get k store.sessions)) [
    | inl missing ↦ absurd (ground (arith, get-update k id f store.sessions))
    | inr (i, found) ↦ (
      i,
      found,
      elim (Bool-cases (str_eq id k)) [
        | inl this ↦
            inl (ground (arith, eq_iff id k), ground (arith, get-update k id f store.sessions))
        | inr other ↦ inr (other, ground (arith, get-update k id f store.sessions))
      ],
    )
  ]

  pub shut-IsOrderly : IsOrderly (record store { sessions = update id f store.sessions })
  shut-IsOrderly = record {
    sorted = IsSorted-update id f store.sessions h.sorted;
    own = λ k info e.
        let (i, found, which) = get-shut k info e in
        elim which [
          | inl (at, new) ↦ rw new (same_id i ∙ h.own k i found)
          | inr (other, old) ↦ rw old (h.own k i found)
        ];
    counted = λ k info e. let (i, found, which) = get-shut k info e in h.counted k i found;
    one =
        λ j k a b. h.one j k (ground (arith, active_at-shut j)) (ground (arith, active_at-shut k));
    frozen = λ k info e off.
        let (i, found, which) = get-shut k info e in
        elim which [
          | inl (at, new) ↦ rw new (kept i (rw at found))
          | inr (other, old) ↦ rw old (h.frozen k i found (rw (sym old) off))
        ];
  }

pub session_name-injective : (m n : ℕ) → session_name m ≡ session_name n → m ≡ n
session_name-injective m n e =
    let left = strip_prefix-append "sess_" (padded_6 m) in
    let right = strip_prefix-append "sess_" (padded_6 n) in
    padded_6-injective m n (ground (arith, left, right, ap (λ s. strip_prefix s "sess_") e))

-- A new session, if none is active.
module _ {V : Type 0} (store : SessionStore V) (name : Option String) (now : ℤ)
    (h : IsOrderly store) (small : store.next_session_id + 1 < u64_mod)
    (quiet : (k : String) → active_at (get k store.sessions) ≡ false) where
  pub create-fresh : get (create name now store).0 store.sessions ≡ none
  unfolding create
  create-fresh = elim (Option-cases (get (session_name store.next_session_id) store.sessions)) [
    | inl fresh ↦ fresh
    | inr (old, taken) ↦
        let (n, same, below) = h.counted (session_name store.next_session_id) old taken in
        let equal = session_name-injective store.next_session_id n same in
        absurd (omega (arith, equal, below))
  ]

  pub active_at-create :
      (k : String)
      → active_at (get k (create name now store).1.sessions) ≡ str_eq (create name now store).0 k
  unfolding create
  active_at-create k =
      let id = session_name store.next_session_id in
      ground (arith, get-insert k id (new_session id name now) store.sessions, quiet k)

  pub create-IsOrderly : IsOrderly (create name now store).1
  unfolding create
  create-IsOrderly =
      let id = session_name store.next_session_id in
      let new = new_session id name now in
      let law : (k : String) → _ = λ k. get-insert k id new store.sessions in
      record {
        sorted = IsSorted-insert id new store.sessions h.sorted;
        own = λ k info e. ground (arith, law k, eq_iff id k, h.own k info);
        counted = λ k info e. elim (Bool-cases (str_eq id k)) [
          | inl this ↦ (store.next_session_id, ground (arith, eq_iff id k), ground arith)
          | inr other ↦
              let (n, same, below) = h.counted k info (ground (arith, law k)) in
              (n, same, omega arith)
        ];
        one = λ j k a b.
            ground (arith, active_at-create j, active_at-create k, eq_iff id j, eq_iff id k);
        frozen = λ k info e off. ground (arith, law k, h.frozen k info);
      }
