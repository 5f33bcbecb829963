-- ===== src/Drive/ScenarioExamples.antt =====
-- Timelines of actions on the Drive twin; a JSON value is the list of its fields' texts.
use agent_sandbox.Drive.Delete.{delete_item, collect, remove_all}
use agent_sandbox.Drive.Access.{has_role}
use agent_sandbox.Drive.Change.{set_permission}
use agent_sandbox.Drive.Create.{create_file, create_folder, check_parent}
use agent_sandbox.Drive.Handle.{handle}
use agent_sandbox.Common.Text.Scan.{eq_ignore_ascii_case}
use agent_sandbox.Drive.Acted.{act_all-no_orphans}
use agent_sandbox.Drive.WellFormed.{IsWellFormed}
use agent_sandbox.Common.BTreeMap.{get, values, insert, update, remove}
use agent_sandbox.Gmail.Scenario.{choose}
use agent_sandbox.Common.{
  List, String, ◌∷◌, Option, map, Result, [], ◌≡◌, ok, err, ◌++◌, true, refl, arith, to_string,
}
use agent_sandbox.Drive.Types.{DriveResponse, default_service, refused}
use agent_sandbox.Drive.Scenario.{
  drive_action, act_all, drive_assertion, action_request, parse_role,
}
use agent_sandbox.Drive.WellFormed.Default.{default_service-IsWellFormed}

abbrev Fields : Type 0
Fields = List (String × String)

abbrev field_of : Fields → String → Option String
field_of v key = get key v

abbrev no_value : DriveResponse → Result String Fields
no_value r = ok []

abbrev make_folder : Fields
make_folder = ("type", "create_folder") ∷ ("parent_id", "root") ∷ ("name", "docs") ∷ []

abbrev share : String → Fields
share role =
    ("type", "set_permission")
    ∷ ("item_id", "item_1")
    ∷ ("target_actor_id", "bob")
    ∷ ("role", role)
    ∷ []

abbrev make_file : Fields
make_file = ("type", "create_file") ∷ ("parent_id", "item_1") ∷ ("name", "notes") ∷ []

abbrev drop_folder : Fields
drop_folder = ("type", "delete_item") ∷ ("item_id", "item_1") ∷ []

-- A folder is shared and filled by another actor, then deleted.
abbrev timeline : List (Fields × String)
timeline = (make_folder, "system") ∷ (share "Editor", "system") ∷ (make_file, "bob") ∷ []

abbrev no_orphans : Fields
no_orphans = ("type", "no_orphans") ∷ []

shared_then_filled :
    map (λ item. item.name) (values (act_all field_of no_value 9 timeline default_service).items)
    ≡ "docs" ∷ "notes" ∷ "My Drive" ∷ []
unfolding act_all drive_action action_request choose values get handle create_file create_folder
    check_parent parse_role eq_ignore_ascii_case set_permission has_role insert to_string update
shared_then_filled = refl

filled_then_deleted :
    map
      (λ item. item.name)
      (values
        (act_all field_of no_value 9 (timeline ++ (drop_folder, "bob") ∷ []) default_service).items)
    ≡ "My Drive" ∷ []
unfolding act_all drive_action action_request choose values get handle create_file create_folder
    check_parent parse_role eq_ignore_ascii_case set_permission has_role insert to_string update
    delete_item collect remove_all remove
filled_then_deleted = refl

unknown_role :
    (drive_action field_of no_value 9 (share "admin") "system" default_service).0
    ≡ err (refused "invalid role: admin")
unfolding drive_action action_request choose get parse_role eq_ignore_ascii_case
unknown_role = refl

act_all-no_orphans_example :
    let t = act_all field_of no_value 9 timeline default_service in
    IsWellFormed t
    × (drive_assertion field_of no_value no_orphans t
        ≡ (ok (record { id = "no_orphans"; passed = true; message = "no orphan items" }), t))
unfolding get
act_all-no_orphans_example =
    act_all-no_orphans field_of no_value 9 timeline no_orphans default_service
      default_service-IsWellFormed (omega arith) refl
