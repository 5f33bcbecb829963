-- ===== src/Drive/Access.antt =====
-- Roles, existence and orphans, and the counter of identifiers.
use agent_sandbox.Common.{
  ℕ, ◌+◌, ◌%◌, String, ◌<>◌, Bool, true, false, not, Option, none, some, List, leb, str_eq,
  if◌then◌else◌, find, any, u64_mod, strip_prefix, parse_u64, to_string, ok,
}
use agent_sandbox.Common.BTreeMap.{BTreeMap, get, contains_key, values}
use agent_sandbox.Drive.Types.{
  DriveItemKind, folder, file, PermissionRole, owner, editor, viewer, Permission, DriveItem,
  DriveTwinService, Drive,
}

abbrev pub rank : PermissionRole → ℕ
rank viewer = 1
rank editor = 2
rank owner = 3

abbrev pub is_folder : DriveItemKind → Bool
is_folder folder = true
is_folder file = false

-- The first permission of an actor, and whether it is enough.
abbrev pub permission_of : List Permission → String → Option Permission
permission_of ps actor_id = find (λ p. str_eq p.actor_id actor_id) ps

abbrev pub suffices : Option Permission → PermissionRole → Bool
suffices none min_role = false
suffices (some p) min_role = leb (rank min_role) (rank p.role)

unfoldable pub has_role : DriveItem → String → PermissionRole → Bool
has_role item actor_id min_role = suffices (permission_of item.permissions actor_id) min_role

unfoldable pub item_exists : DriveTwinService → String → Bool
item_exists s item_id = contains_key item_id s.items

abbrev allowed : Option DriveItem → String → Bool
allowed none actor_id = false
allowed (some item) actor_id = has_role item actor_id viewer

unfoldable pub actor_can_access : DriveTwinService → String → String → Bool
actor_can_access s actor_id item_id = allowed (get item_id s.items) actor_id

-- An item with a parent that is no item.
abbrev pub is_orphan : BTreeMap DriveItem → DriveItem → Bool
is_orphan items item = elim item.parent_id [
  | none ↦ false
  | some parent_id ↦ not (contains_key parent_id items)
]

unfoldable pub has_orphans : DriveTwinService → Bool
has_orphans s = any (is_orphan s.items) (values s.items)

abbrev pub item_name : ℕ → String
item_name n = "item_" <> to_string n

-- A new identifier, and the counter after it.
unfoldable pub new_item_id : Drive String
new_item_id s = (ok (item_name s.next_id), record s { next_id = (s.next_id + 1) % u64_mod })

abbrev pub parse_item_number : String → Option ℕ
parse_item_number id = elim (strip_prefix id "item_") [ none ↦ none | some raw ↦ parse_u64 raw ]

abbrev pub past : ℕ → Option ℕ → ℕ
past next none = next
past next (some n) = if leb next n then (n + 1) % u64_mod else next

unfoldable pub bump_next_id : String → DriveTwinService → DriveTwinService
bump_next_id id s = record s { next_id = past s.next_id (parse_item_number id) }
