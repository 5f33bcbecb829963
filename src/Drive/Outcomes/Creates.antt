-- ===== src/Drive/Outcomes/Creates.antt =====
-- The requests that create an item.
use agent_sandbox.Common.BTreeMap.{BTreeMap, get}
use agent_sandbox.Drive.Access.{item_name, is_folder, has_role}
use agent_sandbox.Drive.Create.{
  upload_content, check_parent, create_folder, create_file, new_file, new_folder, new_upload, grown,
  put_content,
}
use agent_sandbox.Drive.Types.{
  DriveTwinService, Bytes, DriveItem, created, editor, content_created, refused,
}
use agent_sandbox.Common.{
  String, some, ◌⊎◌, Option, ◌≡◌, true, ok, Option-cases, length, inl, arith, inr, Bool-cases,
}
use agent_sandbox.Drive.Outcomes.{has_place, may, Refused}

module _ (actor parent : String) (s : DriveTwinService) where
  check_parent_cases :
      Refused (check_parent actor parent s) s
      ⊎ ((item : DriveItem) × (check_parent actor parent s ≡ (ok item, s))
          × (has_place s.items (some parent) ≡ true)
          × (may (get parent s.items) actor editor ≡ true))
  unfolding check_parent
  check_parent_cases = elim (Option-cases (get parent s.items)) [
    | inl missing ↦ inl (refused "parent not found", ground arith)
    | inr (item, found) ↦ elim (Bool-cases (is_folder item.kind)) [
      | inl is_dir ↦ elim (Bool-cases (has_role item actor editor)) [
        | inl allowed ↦ inr (item, ground arith, ground arith, ground arith)
        | inr denied ↦ inl (refused "permission denied", ground arith)
      ]
      | inr plain ↦ inl (refused "parent must be a folder", ground arith)
    ]
  ]

  -- What a creation that is done says of its parent.
  abbrev pub IsAllowed : Type 0
  IsAllowed =
      (has_place s.items (some parent) ≡ true) × (may (get parent s.items) actor editor ≡ true)

  pub create_folder_cases :
      (name : String)
      → let item = new_folder (item_name s.next_id) actor parent name in
        Refused (create_folder actor parent name s) s
        ⊎ (IsAllowed × (create_folder actor parent name s ≡ (ok (created item), grown item s)))
  unfolding create_folder
  create_folder_cases name = elim check_parent_cases [
    | inl (e, stopped) ↦ inl (e, ground arith)
    | inr (item, passed, place, allowed) ↦ inr ((place, allowed), ground arith)
  ]

  pub create_file_cases :
      (name : String)
      → let item = new_file (item_name s.next_id) actor parent name in
        Refused (create_file actor parent name s) s
        ⊎ (IsAllowed × (create_file actor parent name s ≡ (ok (created item), grown item s)))
  unfolding create_file
  create_file_cases name = elim check_parent_cases [
    | inl (e, stopped) ↦ inl (e, ground arith)
    | inr (item, passed, place, allowed) ↦ inr ((place, allowed), ground arith)
  ]

  pub upload_content_cases :
      (name : String) (mime_type : Option String) (content : Bytes) (properties : BTreeMap String)
      → let id = item_name s.next_id in
        let item = new_upload id actor parent name mime_type content properties in
        Refused (upload_content actor parent name mime_type content properties s) s
        ⊎ (IsAllowed
            × (upload_content actor parent name mime_type content properties s ≡ (
              ok (content_created item (length content)),
              put_content id content (grown item s),
            )))
  unfolding upload_content
  upload_content_cases name mime_type content properties = elim check_parent_cases [
    | inl (e, stopped) ↦ inl (e, ground arith)
    | inr (item, passed, place, allowed) ↦ inr ((place, allowed), ground arith)
  ]
