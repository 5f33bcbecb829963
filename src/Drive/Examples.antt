-- ===== src/Drive/Examples.antt =====
-- Runs of the Drive twin, and the theorems at concrete states.
use agent_sandbox.Drive.WellFormed.Default.{default_service-IsWellFormed}
use agent_sandbox.Drive.Outcomes.RoundTrip.{set_permission-has_role, upload-download}
use agent_sandbox.Drive.Delete.Cycle.{move_item-cycle}
use agent_sandbox.Drive.Outcomes.{may}
use agent_sandbox.Drive.Delete.Removal.{delete_item-removes}
use agent_sandbox.Drive.Read.{download_content}
use agent_sandbox.Drive.WellFormed.Handling.{handle-IsWellFormed}
use agent_sandbox.Drive.Outcomes.Refusals.{handle-refused}
use agent_sandbox.Drive.Outcomes.Frame.{Touches, AgreeAt, handle-AgreeAt}
use agent_sandbox.Drive.Delete.Subtree.{Below, child, here}
use agent_sandbox.Drive.Delete.Termination.{rounds, Falls, delete_item-returns}
use agent_sandbox.Drive.Change.{
  move_item, set_permission, check_destination, with_permission, with_parent,
}
use agent_sandbox.Drive.Outcomes.Rights.{grants, handle-grants}
use agent_sandbox.Drive.Items.{HasOwnIds}
use agent_sandbox.Common.BTreeMap.Order.{IsSorted}
use agent_sandbox.Drive.Delete.{delete_item, collect, remove_all}
use agent_sandbox.Drive.Access.{has_role}
use agent_sandbox.Common.{
  String, none, ◌∷◌, ℕ, [], ◌≡◌, some, refl, arith, List, to_string, eq_iff, if◌then◌else◌, str_eq,
  true, ◌+◌, ok, err,
}
use agent_sandbox.Drive.Types.{
  DriveTwinService, DriveRequest, default_service, default_root, DriveItem, refused, editor,
  deleted, created, still_running, content_of, viewer, content_created, updated,
}
use agent_sandbox.Drive.Create.{create_folder, upload_content, check_parent, new_folder, new_upload}
use agent_sandbox.Common.BTreeMap.{get, insert, keys, remove}
use agent_sandbox.Drive.Handle.{handle}
use agent_sandbox.Drive.WellFormed.{IsWellFormed}

-- Folder `item_1` in the root, folder `item_2` in it, and file `item_3` with content in that.
abbrev tree : DriveTwinService
tree = record {
  items =
      ("item_1", new_folder "item_1" "system" "root" "A")
      ∷ ("item_2", new_folder "item_2" "system" "item_1" "B")
      ∷ ("item_3", new_upload "item_3" "system" "item_2" "c" none (104 ∷ 105 ∷ []) [])
      ∷ ("root", default_root)
      ∷ [];
  content = ("item_3", 104 ∷ 105 ∷ []) ∷ [];
  next_id = 4;
}

abbrev run : List DriveRequest → DriveTwinService → DriveTwinService
run [] s = s
run (r ∷ rs) s = run rs (handle 9 r s).1

tree_made :
    run
      (DriveRequest.create_folder "system" "root" "A"
        ∷ DriveRequest.create_folder "system" "item_1" "B"
        ∷ DriveRequest.upload_content "system" "item_2" "c" none (104 ∷ 105 ∷ []) []
        ∷ [])
      default_service
    ≡ tree
unfolding handle create_folder upload_content check_parent get insert has_role to_string
tree_made = refl

deleted_ids :
    (keys (handle 9 (DriveRequest.delete_item "system" "item_1") tree).1.items ≡ "root" ∷ [])
    × (keys (handle 9 (DriveRequest.delete_item "system" "item_1") tree).1.content ≡ [])
unfolding handle get has_role keys delete_item collect remove_all remove
deleted_ids = (refl, refl)

tree-HasOwnIds : HasOwnIds tree.items
tree-HasOwnIds = (refl, (refl, (refl, (refl, tt))))

tree-IsSorted : IsSorted tree.items
tree-IsSorted = ((refl, (refl, (refl, tt))), ((refl, (refl, tt)), ((refl, tt), (tt, tt))))

handle-IsWellFormed_example :
    IsWellFormed (handle 9 (DriveRequest.create_folder "system" "root" "A") default_service).1
handle-IsWellFormed_example =
    handle-IsWellFormed 9 (DriveRequest.create_folder "system" "root" "A") default_service
      (omega arith) default_service-IsWellFormed

delete_item-removes_example :
    let t = (delete_item 9 "system" "item_1" tree).1 in
    (Below tree.items "item_1" "item_3"
      → (get "item_3" t.items ≡ none) × (get "item_3" t.content ≡ none))
    × (¬ Below tree.items "item_1" "item_3"
        → (get "item_3" t.items ≡ get "item_3" tree.items)
          × (get "item_3" t.content ≡ get "item_3" tree.content))
unfolding delete_item get has_role collect
delete_item-removes_example =
    delete_item-removes 9 "system" "item_1" tree (deleted "item_1") "item_3" tree-IsSorted
      tree-HasOwnIds refl

abbrev tree_height : String → ℕ
tree_height k =
    if str_eq "root" k
    then 3
    else if str_eq "item_1" k
    then 2
    else if str_eq "item_2" k
    then 1
    else 0

tree-Falls : Falls tree.items tree_height
unfolding get
tree-Falls p c (item, e, q) = ground (
  arith,
  eq_iff "item_1" c,
  eq_iff "item_2" c,
  eq_iff "item_3" c,
  eq_iff "root" c,
  eq_iff "root" p,
  eq_iff "item_1" p,
  eq_iff "item_2" p,
  eq_iff "item_1" "item_2",
  eq_iff "item_1" "item_3",
  eq_iff "item_2" "item_3",
  eq_iff "item_1" "root",
  eq_iff "item_2" "root",
  eq_iff "item_3" "root",
)

delete_item-returns_example :
    (delete_item (rounds tree.items 3 ("item_1" ∷ []) + 5) "system" "item_1" tree).0
    ≡ ok (deleted "item_1")
unfolding get has_role
delete_item-returns_example =
    delete_item-returns "system" "item_1" tree (new_folder "item_1" "system" "root" "A") tree_height
      5 tree-IsSorted tree-HasOwnIds tree-Falls refl refl refl

move_item-cycle_example :
    (delete_item 1000 "system" "item_1" (move_item "system" "item_1" "item_2" tree).1).0
    ≡ err still_running
unfolding get has_role move_item check_destination
move_item-cycle_example =
    move_item-cycle "system" "item_1" "item_2" tree
      (updated (with_parent "item_2" (new_folder "item_1" "system" "root" "A"))) 1000 tree-HasOwnIds
      (child here (new_folder "item_2" "system" "item_1" "B", refl, refl)) refl

handle-grants_example :
    grants (DriveRequest.create_folder "system" "root" "A") default_service ≡ true
unfolding handle create_folder check_parent get has_role to_string
handle-grants_example =
    handle-grants 9 (DriveRequest.create_folder "system" "root" "A") default_service
      (created (new_folder "item_1" "system" "root" "A")) refl

handle-refused_example :
    (handle 9 (DriveRequest.create_folder "eve" "root" "A") default_service).1 ≡ default_service
unfolding handle create_folder check_parent get has_role
handle-refused_example =
    handle-refused 9 (DriveRequest.create_folder "eve" "root" "A") default_service
      (refused "permission denied") refl

handle-AgreeAt_example :
    AgreeAt "root" tree
      (handle 9 (DriveRequest.update_item "system" "item_1" (some "Z") none) tree).1
unfolding Touches
handle-AgreeAt_example =
    handle-AgreeAt 9 (DriveRequest.update_item "system" "item_1" (some "Z") none) tree "root"
      tree-IsSorted tree-HasOwnIds (λ e. ground (arith, eq_iff "item_1" "root"))

upload-download_example :
    let u = upload_content "system" "root" "n" none (1 ∷ 2 ∷ []) [] default_service in
    (item : DriveItem) × ((download_content "system" "item_1" u.1).0
      ≡ ok (content_of item (1 ∷ 2 ∷ [])))
    × (content_created (new_upload "item_1" "system" "root" "n" none (1 ∷ 2 ∷ []) []) 2
        ≡ content_created item 2)
    × (item.size ≡ some 2)
    × (item.parent_id ≡ some "root")
unfolding upload_content check_parent get has_role to_string
upload-download_example =
    upload-download "system" "root" "n" none (1 ∷ 2 ∷ []) [] default_service
      (content_created (new_upload "item_1" "system" "root" "n" none (1 ∷ 2 ∷ []) []) 2) refl

set_permission-has_role_example :
    may (get "item_1" (set_permission "system" "item_1" "bob" editor tree).1.items) "bob" viewer
    ≡ true
unfolding set_permission get has_role
set_permission-has_role_example =
    set_permission-has_role "system" "item_1" "bob" editor tree
      (updated (with_permission "bob" editor (new_folder "item_1" "system" "root" "A"))) "bob"
      viewer refl
