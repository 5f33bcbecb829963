-- ===== src/Drive/Seed/Keeping.antt =====
-- Seeding keeps the invariant of the state.
use agent_sandbox.Drive.WellFormed.Creating.{put_item-IsWellFormed}
use agent_sandbox.Drive.Access.{parse_item_number, past, is_folder, bump_next_id}
use agent_sandbox.Drive.WellFormed.Writing.{IsFit, write-IsWellFormed}
use agent_sandbox.Drive.Outcomes.{has_place, Refused}
use agent_sandbox.Common.{
  ◌≡◌, String, Option, some, Option-cases, true, none, inl, arith, refl, inr, Bool-cases, str_eq, ℕ,
  ◌+◌, ◌<◌, u64_mod, ◌⊎◌, ok, ◌≤◌, eq_iff, eq_refl,
}
use agent_sandbox.Drive.Types.{DriveItem, DriveTwinService, DriveItemKind, refused}
use agent_sandbox.Common.BTreeMap.{contains_key, get, get-update, get-insert}
use agent_sandbox.Drive.WellFormed.{IsWellFormed}
use agent_sandbox.Drive.Seed.{
  seed_root, owned_root, seed_new, put_seed, seeded_item, check_seed_parent, seed_item,
}

owned_root-IsFit :
    (s : DriveTwinService) (owner_id : String) (name : Option String) (root : DriveItem)
    → IsWellFormed s
    → get "root" s.items ≡ some root
    → IsFit s "root" root (owned_root owner_id name root)
owned_root-IsFit s owner_id none root wf found = record {
  found = found;
  same_id = refl;
  same_kind = refl;
  place = wf.placed "root" root found;
  top = λ h. refl;
}
owned_root-IsFit s owner_id (some name) root wf found = record {
  found = found;
  same_id = refl;
  same_kind = refl;
  place = wf.placed "root" root found;
  top = λ h. refl;
}

pub seed_root-IsWellFormed :
    (owner_id : String) (name : Option String) (s : DriveTwinService)
    → IsWellFormed s
    → IsWellFormed (seed_root owner_id name s).1
unfolding seed_root
seed_root-IsWellFormed owner_id name s wf = elim (Option-cases (get "root" s.items)) [
  | inl missing ↦ rw missing wf
  | inr (root, found) ↦ rw found (
      write-IsWellFormed s "root" root (owned_root owner_id name root)
        (owned_root-IsFit s owner_id name root wf found) wf)
]

-- The number in an identifier, if it has one, leaves the counter below its wrap-around.
abbrev pub IsCountable : String → Type 0
IsCountable id = (n : ℕ) → parse_item_number id ≡ some n → n + 1 < u64_mod

past-le : (next : ℕ) (o : Option ℕ) → ((n : ℕ) → o ≡ some n → n + 1 < u64_mod) → next ≤ past next o
past-le next none small = omega arith
past-le next (some n) small = ground (arith, small n refl)

lt-past : (next n : ℕ) → n + 1 < u64_mod → n < past next (some n)
lt-past next n small = ground arith

check_seed_parent_cases :
    (parent : Option String) (s : DriveTwinService)
    → Refused (check_seed_parent parent s) s
      ⊎ ((has_place s.items parent ≡ true) × (check_seed_parent parent s ≡ (ok tt, s)))
unfolding check_seed_parent
check_seed_parent_cases none s = inr (refl, refl)
check_seed_parent_cases (some p) s = elim (Option-cases (get p s.items)) [
  | inl missing ↦ inl (refused "seed parent not found", ground arith)
  | inr (item, found) ↦ elim (Bool-cases (is_folder item.kind)) [
    | inl is_dir ↦ inr (ground arith, ground arith)
    | inr plain ↦ inl (refused "seed parent must be folder", ground arith)
  ]
]

pub seed_new_cases :
    (id name : String) (parent : Option String) (owner_id : String) (kind : DriveItemKind)
    (s : DriveTwinService)
    → Refused (seed_new id name parent owner_id kind s) s
      ⊎ ((get id s.items ≡ none)
          × (has_place s.items parent ≡ true)
          × (seed_new id name parent owner_id kind s
              ≡ (ok tt, put_seed (seeded_item id name parent owner_id kind) s)))
unfolding seed_new
seed_new_cases id name parent owner_id kind s = elim (Option-cases (get id s.items)) [
  | inr (old, taken) ↦ inl (refused "duplicate seed id", ground arith)
  | inl fresh ↦ elim (check_seed_parent_cases parent s) [
    | inl (e, stopped) ↦ inl (e, ground arith)
    | inr (place, passed) ↦ inr (fresh, place, ground arith)
  ]
]

-- `seed_item` without a wrap-around of the counter.
pub seed_item-IsWellFormed :
    (id name : String) (parent : Option String) (owner_id : String) (kind : DriveItemKind)
    (s : DriveTwinService)
    → IsCountable id
    → IsWellFormed s
    → IsWellFormed (seed_item id name parent owner_id kind s).1
unfolding seed_item bump_next_id
seed_item-IsWellFormed id name parent owner_id kind s small wf =
    elim (Bool-cases (str_eq id "root")) [
      | inl at_root ↦ rw at_root (seed_root-IsWellFormed owner_id (some name) s wf)
      | inr other ↦ rw other (elim (seed_new_cases id name parent owner_id kind s) [
        | inl (e, stopped) ↦ rw stopped wf
        | inr (fresh, place, done) ↦ rw done (
            put_item-IsWellFormed s (seeded_item id name parent owner_id kind)
              (past s.next_id (parse_item_number id)) wf fresh place
              (past-le s.next_id (parse_item_number id) small)
              (λ n e. rw e (lt-past s.next_id n (small n e))))
      ])
    ]

pub seed_root-contains_key :
    (owner_id : String) (name : Option String) (s : DriveTwinService)
    → (seed_root owner_id name s).0 ≡ ok tt
    → contains_key "root" (seed_root owner_id name s).1.items ≡ true
unfolding seed_root
seed_root-contains_key owner_id name s e = elim (Option-cases (get "root" s.items)) [
  | inl missing ↦ absurd (ground arith)
  | inr (root, found) ↦
      rw found
        (ground (arith, get-update "root" "root" (λ _. owned_root owner_id name root) s.items))
]

pub seed_item_cases :
    (id name : String) (parent : Option String) (owner_id : String) (kind : DriveItemKind)
    (s : DriveTwinService)
    → ((id ≡ "root")
        × (seed_item id name parent owner_id kind s ≡ seed_root owner_id (some name) s))
      ⊎ (seed_item id name parent owner_id kind s ≡ seed_new id name parent owner_id kind s)
unfolding seed_item
seed_item_cases id name parent owner_id kind s = elim (Bool-cases (str_eq id "root")) [
  | inl at_root ↦ inl (ground (arith, eq_iff id "root"), rw at_root refl)
  | inr other ↦ inr (rw other refl)
]

-- What is seeded is there.
pub seed_item-contains_key :
    (id name : String) (parent : Option String) (owner_id : String) (kind : DriveItemKind)
    (s : DriveTwinService)
    → (seed_item id name parent owner_id kind s).0 ≡ ok tt
    → contains_key id (seed_item id name parent owner_id kind s).1.items ≡ true
unfolding bump_next_id
seed_item-contains_key id name parent owner_id kind s e =
    elim (seed_item_cases id name parent owner_id kind s) [
      | inl (named, same) ↦ rw (same, named) (seed_root-contains_key owner_id (some name) s cc)
      | inr same ↦ elim (seed_new_cases id name parent owner_id kind s) [
        | inl (why, stopped) ↦ absurd (ground arith)
        | inr (fresh, place, done) ↦
            let new = seeded_item id name parent owner_id kind in
            rw (same, done) (ground (arith, get-insert id id new s.items, eq_refl id))
      ]
    ]
