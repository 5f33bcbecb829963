-- ===== src/Drive/Outcomes.antt =====
-- The two ways in which each request of `handle` can end: refused with the state as it was, or done
-- by an actor with the role that the request needs.
pub mod Creates
pub mod Changes
pub mod Reads
pub mod Rights
pub mod Frame
pub mod Refusals
pub mod RoundTrip
use agent_sandbox.Drive.Access.{has_role, is_folder}
use agent_sandbox.Common.BTreeMap.{BTreeMap, get}
use agent_sandbox.Common.{Option, Result, Bool, String, false, ◌≡◌, true, err, some, none}
use agent_sandbox.Drive.Types.{Drive, DriveItem, Failure, DriveTwinService, PermissionRole}

abbrev pub holds_folder : Option DriveItem → Bool
holds_folder none = false
holds_folder (some item) = is_folder item.kind

-- A parent, if there is one, is an item and a folder.
abbrev pub has_place : BTreeMap DriveItem → Option String → Bool
has_place items none = true
has_place items (some parent_id) = holds_folder (get parent_id items)

-- The actor has the role on the item, or a higher one.
abbrev pub may : Option DriveItem → String → PermissionRole → Bool
may none actor_id role = false
may (some item) actor_id role = has_role item actor_id role

-- The result of a request that was refused in state `s`.
abbrev pub Refused : {A : Type 0} → Result Failure A × DriveTwinService → DriveTwinService → Type 0
Refused r s = (e : Failure) × (r ≡ (err e, s))
