-- ===== src/Drive/Outcomes/Changes.antt =====
-- The requests that change an item in place, and the deletion.
use agent_sandbox.Drive.Items.{HasOwnIds, own_id_of_get}
use agent_sandbox.Drive.Access.{has_role, is_folder}
use agent_sandbox.Common.BTreeMap.{get, is_some}
use agent_sandbox.Drive.Delete.{delete_item, collect, remove_all}
use agent_sandbox.Drive.Types.{
  PermissionRole, DriveTwinService, DriveItem, owner, editor, Failure, DriveResponse, updated,
  refused, deleted, still_running,
}
use agent_sandbox.Common.{
  String, ◌⊎◌, Option, ℕ, ◌≡◌, Result, some, ok, true, inr, Option-cases, str_eq, inl, ◌&&◌, false,
  arith, Bool-cases, List, none, refl, [], ◌∷◌,
}
use agent_sandbox.Drive.Change.{
  check_destination, set_permission, move_item, update_item, check_move, edited, with_permission,
  with_parent, write,
}
use agent_sandbox.Drive.Outcomes.{has_place, may, Refused}

-- The request `r` was done: it changed the item by `f`, and the actor had the role on it.
abbrev pub Edited :
    String
    → String
    → PermissionRole
    → (DriveItem → DriveItem)
    → Result Failure DriveResponse × DriveTwinService
    → DriveTwinService
    → Type 0
Edited actor id role f r s =
    (item : DriveItem) × (get id s.items ≡ some item)
    × (has_role item actor role ≡ true)
    × (r ≡ (ok (updated (f item)), write id (f item) s))

pub set_permission_cases :
    (actor id target : String) (role : PermissionRole) (s : DriveTwinService)
    → let r = set_permission actor id target role s in
      Refused r s ⊎ Edited actor id owner (with_permission target role) r s
unfolding set_permission
set_permission_cases actor id target role s = elim (Option-cases (get id s.items)) [
  | inl missing ↦ inl (refused "item not found", ground arith)
  | inr (item, found) ↦ elim (Bool-cases (has_role item actor owner)) [
    | inl allowed ↦ inr (item, found, allowed, ground arith)
    | inr denied ↦ inl (refused "only owners can set permissions", ground arith)
  ]
]

check_destination_cases :
    (actor parent : String) (s : DriveTwinService)
    → Refused (check_destination actor parent s) s
      ⊎ ((check_destination actor parent s ≡ (ok tt, s))
          × (has_place s.items (some parent) ≡ true)
          × (may (get parent s.items) actor editor ≡ true))
unfolding check_destination
check_destination_cases actor parent s = elim (Option-cases (get parent s.items)) [
  | inl missing ↦ inl (refused "destination parent not found", ground arith)
  | inr (item, found) ↦ elim (Bool-cases (is_folder item.kind)) [
    | inl is_dir ↦ elim (Bool-cases (has_role item actor editor)) [
      | inl allowed ↦ inr (ground arith, ground arith, ground arith)
      | inr denied ↦ inl (refused "permission denied on destination parent", ground arith)
    ]
    | inr plain ↦ inl (refused "destination parent must be a folder", ground arith)
  ]
]

-- The checks on the item that is moved or edited.
module _ (actor id : String) (s : DriveTwinService) where
  pub move_item_cases :
      (parent : String)
      → let r = move_item actor id parent s in
        Refused r s
        ⊎ (Edited actor id editor (with_parent parent) r s
            × (has_place s.items (some parent) ≡ true)
            × (may (get parent s.items) actor editor ≡ true)
            × (str_eq id "root" ≡ true → HasOwnIds s.items → ⊥))
  unfolding move_item
  move_item_cases parent = elim (check_destination_cases actor parent s) [
    | inl (e, stopped) ↦ inl (e, ground arith)
    | inr (passed, place, may_add) ↦ elim (Option-cases (get id s.items)) [
      | inl missing ↦ inl (refused "item not found", ground arith)
      | inr (item, found) ↦ elim (Bool-cases (str_eq item.id "root")) [
        | inl is_root ↦ inl (refused "cannot move root", ground arith)
        | inr other ↦ elim (Bool-cases (has_role item actor editor)) [
          | inl allowed ↦ inr (
            (item, found, allowed, ground arith),
            place,
            may_add,
            λ is_root own. ground (arith, own_id_of_get s.items id item own found),
          )
          | inr denied ↦ inl (refused "permission denied", ground arith)
        ]
      ]
    ]
  ]

  -- Where no move is asked for, nothing is said of a destination.
  abbrev pub MayMove : Option String → Type 0
  MayMove none = Unit
  MayMove (some parent) =
      (has_place s.items (some parent) ≡ true)
      × (may (get parent s.items) actor editor ≡ true)
      × (str_eq id "root" ≡ true → HasOwnIds s.items → ⊥)

  check_move_cases :
      (parent : Option String)
      → Refused (check_move actor parent s) s
        ⊎ ((check_move actor parent s ≡ (ok tt, s))
            × (has_place s.items parent ≡ true)
            × ((p : String) → parent ≡ some p → may (get p s.items) actor editor ≡ true))
  unfolding check_move
  check_move_cases none = inr (refl, refl, λ p e. cc)
  check_move_cases (some parent) = elim (check_destination_cases actor parent s) [
    | inl stopped ↦ inl stopped
    | inr (passed, place, may_add) ↦ inr (passed, place, λ p e. ground arith)
  ]

  may_move :
      (parent : Option String) (item : DriveItem)
      → get id s.items ≡ some item
      → has_place s.items parent ≡ true
      → ((p : String) → parent ≡ some p → may (get p s.items) actor editor ≡ true)
      → (str_eq item.id "root" && is_some parent) ≡ false
      → MayMove parent
  may_move none item found place may_add other = tt
  may_move (some p) item found place may_add other = (
    place,
    may_add p refl,
    λ is_root own. ground (arith, own_id_of_get s.items id item own found),
  )

  pub update_item_cases :
      (name parent : Option String)
      → let r = update_item actor id name parent s in
        Refused r s ⊎ (Edited actor id editor (edited name parent) r s × MayMove parent)
  unfolding update_item
  update_item_cases name parent = elim (check_move_cases parent) [
    | inl (e, stopped) ↦ inl (e, ground arith)
    | inr (passed, place, may_add) ↦ elim (Option-cases (get id s.items)) [
      | inl missing ↦ inl (refused "item not found", ground arith)
      | inr (item, found) ↦ elim (Bool-cases (str_eq item.id "root" && is_some parent)) [
        | inl is_root ↦ inl (refused "cannot move root", ground arith)
        | inr other ↦ elim (Bool-cases (has_role item actor editor)) [
          | inl allowed ↦
              inr (
                (item, found, allowed, ground arith),
                may_move parent item found place may_add other,
              )
          | inr denied ↦ inl (refused "permission denied", ground arith)
        ]
      ]
    ]
  ]

  pub delete_item_cases :
      (fuel : ℕ)
      → let r = delete_item fuel actor id s in
        Refused r s
        ⊎ ((item : DriveItem) × (get id s.items ≡ some item)
            × (has_role item actor editor ≡ true)
            × (str_eq item.id "root" ≡ false)
            × (out : List String) × (collect s.items fuel [] (id ∷ []) ≡ some out)
            × (r ≡ (ok (deleted id), remove_all out s)))
  unfolding delete_item
  delete_item_cases fuel = elim (Option-cases (get id s.items)) [
    | inl missing ↦ inl (refused "item not found", ground arith)
    | inr (item, found) ↦ elim (Bool-cases (str_eq item.id "root")) [
      | inl is_root ↦ inl (refused "cannot delete root", ground arith)
      | inr other ↦ elim (Bool-cases (has_role item actor editor)) [
        | inl allowed ↦ elim (Option-cases (collect s.items fuel [] (id ∷ []))) [
          | inl runs ↦ inl (still_running, ground arith)
          | inr (out, ends) ↦ inr (item, found, allowed, other, out, ends, ground arith)
        ]
        | inr denied ↦ inl (refused "permission denied", ground arith)
      ]
    ]
  ]
