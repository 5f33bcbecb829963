-- ===== src/Drive/WellFormed.antt =====
-- The invariant of the Drive twin's state.
pub mod Writing
pub mod Creating
pub mod Deleting
pub mod Handling
pub mod Assertions
pub mod Default
use agent_sandbox.Drive.Outcomes.{has_place}
use agent_sandbox.Common.{ℕ, ◌<◌, String, ◌≡◌, Bool, true, false, ◌&&◌, Option, none, some, u64_mod}
use agent_sandbox.Common.BTreeMap.{BTreeMap, get, contains_key}
use agent_sandbox.Common.BTreeMap.Order.{IsSorted}
use agent_sandbox.Drive.Types.{DriveItem, DriveTwinService}
use agent_sandbox.Drive.Items.{HasOwnIds}
use agent_sandbox.Drive.Access.{is_folder, parse_item_number}

abbrev pub is_top : Option String → Bool
is_top none = true
is_top (some p) = false

abbrev pub is_root_folder : Option DriveItem → Bool
is_root_folder none = false
is_root_folder (some item) = is_folder item.kind && is_top item.parent_id

pub record IsWellFormed (s : DriveTwinService) : Type 0 where
  pub sorted : IsSorted s.items
  pub own : HasOwnIds s.items
  -- `root` is a folder without a parent
  pub root : is_root_folder (get "root" s.items) ≡ true
  -- no orphans: every parent is an item, and a folder
  pub placed :
      (k : String) (item : DriveItem)
      → get k s.items ≡ some item
      → has_place s.items item.parent_id ≡ true
  -- content belongs to items
  pub content : (k : String) → contains_key k s.content ≡ true → contains_key k s.items ≡ true
  -- the counter is past the number in every identifier that has one
  pub counted :
      (k : String) (n : ℕ)
      → contains_key k s.items ≡ true
      → parse_item_number k ≡ some n
      → n < s.next_id
