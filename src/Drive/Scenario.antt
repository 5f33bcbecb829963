-- ===== src/Drive/Scenario.antt =====
-- The Drive twin in a scenario: its assertions and its timeline actions. `str_field` is a field of a
-- JSON value as a text, and `to_value` serde's encoding of a response, which may fail.
use agent_sandbox.Common.Text.Scan.{eq_ignore_ascii_case}
use agent_sandbox.Drive.Access.{has_orphans, actor_can_access, item_exists}
use agent_sandbox.Drive.Handle.{handle}
use agent_sandbox.Drive.Types.{
  Drive, DriveRequest, DriveResponse, DriveTwinService, PermissionRole, owner, editor, viewer,
  refused,
}
use agent_sandbox.Gmail.Scenario.{TimelineActionResult, choose, verdict}
use agent_sandbox.Server.Runs.{AssertionResult}
use agent_sandbox.Common.{
  [], ◌∷◌, none, some, ℕ, String, List, Option, Result, ok, err, ◌<>◌, ◌>>=◌, if◌then◌else◌, not,
  pure, gets, fail, ok_or,
}

unfoldable pub parse_role : String → Option PermissionRole
parse_role raw =
    if eq_ignore_ascii_case raw "owner"
    then some owner
    else if eq_ignore_ascii_case raw "editor"
    then some editor
    else if eq_ignore_ascii_case raw "viewer"
    then some viewer
    else none

module _ {V : Type 0} (str_field : V → String → Option String)
    (to_value : DriveResponse → Result String V) where
  abbrev pub required : V → String → String → Drive String
  required v key message = ok_or (str_field v key) (refused message)

  -- `json_str`
  abbrev pub string_field : V → String → Drive String
  string_field v key = required v key ("missing field '" <> key <> "'")

  unfoldable pub check_no_orphans : Drive AssertionResult
  check_no_orphans = do
    orphans ← gets has_orphans
    pure (verdict "no_orphans" (not orphans) "no orphan items" "orphan items detected")

  unfoldable pub check_actor_can_access : V → Drive AssertionResult
  check_actor_can_access v = do
    actor ← required v "actor_id" "actor_can_access missing 'actor_id'"
    item ← required v "item_id" "actor_can_access missing 'item_id'"
    can_access ← gets (λ s. actor_can_access s actor item)
    pure (
        verdict "actor_can_access" can_access
          ("actor '" <> actor <> "' can access item '" <> item <> "'")
          ("actor '" <> actor <> "' cannot access item '" <> item <> "'"))

  unfoldable pub check_item_exists : V → Drive AssertionResult
  check_item_exists v = do
    item ← required v "item_id" "item_exists missing 'item_id'"
    exists ← gets (λ s. item_exists s item)
    pure (
        verdict "item_exists" exists ("item '" <> item <> "' exists")
          ("item '" <> item <> "' does not exist"))

  -- The cases of `match check_type`.
  abbrev pub drive_checks : V → List (String × Drive AssertionResult)
  drive_checks v =
      ("no_orphans", check_no_orphans)
      ∷ ("actor_can_access", check_actor_can_access v)
      ∷ ("item_exists", check_item_exists v)
      ∷ []

  unfoldable pub drive_assertion : V → Drive AssertionResult
  drive_assertion v = do
    kind ← required v "type" "assertion check missing 'type'"
    choose kind (drive_checks v) (fail (refused ("unknown assertion type: " <> kind)))

  -- An action on the item that a field names, and one that makes an item.
  abbrev pub item_action : (String → DriveRequest) → V → Drive (String × DriveRequest)
  item_action make v = do
    item ← string_field v "item_id"
    pure ("/drive/items/{item_id}", make item)

  abbrev pub create_action :
      String → (String → String → DriveRequest) → V → Drive (String × DriveRequest)
  create_action endpoint make v = do
    parent ← string_field v "parent_id"
    name ← string_field v "name"
    pure (endpoint, make parent name)

  abbrev pub permission_action : String → V → Drive (String × DriveRequest)
  permission_action actor v = do
    item ← string_field v "item_id"
    target ← string_field v "target_actor_id"
    role_str ← string_field v "role"
    role ← ok_or (parse_role role_str) (refused ("invalid role: " <> role_str))
    pure ("/drive/items/{item_id}/permissions", DriveRequest.set_permission actor item target role)

  -- The cases of `match action_type`.
  abbrev pub drive_actions : String → V → List (String × Drive (String × DriveRequest))
  drive_actions actor v =
      ("create_file", create_action "/drive/files" (DriveRequest.create_file actor) v)
      ∷ ("create_folder", create_action "/drive/folders" (DriveRequest.create_folder actor) v)
      ∷ ("set_permission", permission_action actor v)
      ∷ ("get_item", item_action (DriveRequest.get_item actor) v)
      ∷ ("delete_item", item_action (DriveRequest.delete_item actor) v)
      ∷ []

  unfoldable pub action_request : String → V → Drive (String × DriveRequest)
  action_request actor v = do
    kind ← required v "type" "action missing 'type'"
    choose kind (drive_actions actor v) (fail (refused ("unknown timeline action type: " <> kind)))

  abbrev pub encoded : Result String V → Drive V
  encoded (ok v) = pure v
  encoded (err e) = fail (refused ("failed to serialize response: " <> e))

  -- The fuel is for a deletion's loop.
  unfoldable pub drive_action : ℕ → V → String → Drive (TimelineActionResult V)
  drive_action fuel v actor = do
    call ← action_request actor v
    answer ← handle fuel call.1
    value ← encoded (to_value answer)
    pure (record { endpoint = call.0; response = value })

  -- The state after the actions of a timeline, whatever each of them answers.
  unfoldable pub act_all : ℕ → List (V × String) → DriveTwinService → DriveTwinService
  act_all fuel [] s = s
  act_all fuel ((action, actor) ∷ rest) s = act_all fuel rest (drive_action fuel action actor s).1
