-- ===== src/Drive/WellFormed/Handling.antt =====
-- Every request keeps the invariant, whatever its result.
use agent_sandbox.Drive.Access.{item_name}
use agent_sandbox.Drive.Delete.Loop.{collect-Below}
use agent_sandbox.Drive.Items.{HasOwnIds, own_id_of_get}
use agent_sandbox.Drive.WellFormed.Creating.{grown-IsWellFormed, put_content-IsWellFormed}
use agent_sandbox.Drive.WellFormed.Deleting.{remove_all-IsWellFormed}
use agent_sandbox.Drive.Change.{
  with_permission, edited, set_permission, with_parent, move_item, update_item,
}
use agent_sandbox.Drive.Outcomes.Creates.{
  create_file_cases, create_folder_cases, upload_content_cases,
}
use agent_sandbox.Drive.WellFormed.Writing.{IsFit, write-IsWellFormed}
use agent_sandbox.Drive.Create.{create_folder, create_file, upload_content, new_upload}
use agent_sandbox.Drive.Outcomes.Reads.{list_children-state, get_item-state, download_content-state}
use agent_sandbox.Common.BTreeMap.{get, BTreeMap, get-insert}
use agent_sandbox.Drive.Outcomes.Changes.{
  MayMove, delete_item_cases, Edited, set_permission_cases, move_item_cases, update_item_cases,
}
use agent_sandbox.Drive.Delete.{delete_item}
use agent_sandbox.Drive.Types.{
  DriveTwinService, Failure, DriveRequest, PermissionRole, DriveItem, DriveResponse, Bytes, owner,
  editor,
}
use agent_sandbox.Common.{
  none, some, Result, ℕ, String, Option, ◌+◌, ◌<◌, some, u64_mod, ◌≡◌, inl, true, inr, str_eq,
  arith, refl, eq_iff, eq_refl,
}
use agent_sandbox.Drive.Outcomes.{has_place, Refused}
use agent_sandbox.Drive.Handle.{handle}
use agent_sandbox.Drive.WellFormed.{IsWellFormed}

Refused-IsWellFormed :
    {A : Type 0} (r : Result Failure A × DriveTwinService) (s : DriveTwinService)
    → IsWellFormed s
    → Refused r s
    → IsWellFormed r.1
Refused-IsWellFormed r s wf (e, stopped) = rw stopped wf

Edited-IsWellFormed :
    (actor id : String) (role : PermissionRole) (f : DriveItem → DriveItem)
    (r : Result Failure DriveResponse × DriveTwinService) (s : DriveTwinService)
    → IsWellFormed s
    → ((item : DriveItem) → get id s.items ≡ some item → IsFit s id item (f item))
    → Edited actor id role f r s
    → IsWellFormed r.1
Edited-IsWellFormed actor id role f r s wf fit (item, found, allowed, done) =
    rw done (write-IsWellFormed s id item (f item) (fit item found) wf)

module _ (s : DriveTwinService) (wf : IsWellFormed s) where
  with_permission-IsFit :
      (id target : String) (role : PermissionRole) (item : DriveItem)
      → get id s.items ≡ some item
      → IsFit s id item (with_permission target role item)
  with_permission-IsFit id target role item found = record {
    found = found;
    same_id = refl;
    same_kind = refl;
    place = wf.placed id item found;
    top = λ h. refl;
  }

  with_parent-IsFit :
      (id parent : String) (item : DriveItem)
      → has_place s.items (some parent) ≡ true
      → (str_eq id "root" ≡ true → HasOwnIds s.items → ⊥)
      → get id s.items ≡ some item
      → IsFit s id item (with_parent parent item)
  with_parent-IsFit id parent item place other found = record {
    found = found;
    same_id = refl;
    same_kind = refl;
    place = place;
    top = λ h. absurd (other h wf.own);
  }

  edited-IsFit :
      (actor id : String) (name parent : Option String) (item : DriveItem)
      → MayMove actor id s parent
      → get id s.items ≡ some item
      → IsFit s id item (edited name parent item)
  edited-IsFit actor id none none item h found = record {
    found = found;
    same_id = refl;
    same_kind = refl;
    place = wf.placed id item found;
    top = λ h. refl;
  }
  edited-IsFit actor id (some name) none item h found = record {
    found = found;
    same_id = refl;
    same_kind = refl;
    place = wf.placed id item found;
    top = λ h. refl;
  }
  edited-IsFit actor id none (some parent) item (place, may_add, other) found = record {
    found = found;
    same_id = refl;
    same_kind = refl;
    place = place;
    top = λ h. absurd (other h wf.own);
  }
  edited-IsFit actor id (some name) (some parent) item (place, may_add, other) found = record {
    found = found;
    same_id = refl;
    same_kind = refl;
    place = place;
    top = λ h. absurd (other h wf.own);
  }

  delete_item-IsWellFormed :
      (fuel : ℕ) (actor id : String) → IsWellFormed (delete_item fuel actor id s).1
  delete_item-IsWellFormed fuel actor id = elim (delete_item_cases actor id s fuel) [
    | inl stopped ↦ Refused-IsWellFormed (delete_item fuel actor id s) s wf stopped
    | inr (item, found, allowed, other, out, ends, done) ↦ rw done (
        remove_all-IsWellFormed s id out wf
          (λ same. ground (arith, own_id_of_get s.items id item wf.own found, eq_iff id "root"))
          (λ c. collect-Below s.items fuel id c wf.sorted wf.own ends))
  ]

  module _ (small : s.next_id + 1 < u64_mod) where
    create_folder-IsWellFormed :
        (actor parent name : String) → IsWellFormed (create_folder actor parent name s).1
    create_folder-IsWellFormed actor parent name = elim (create_folder_cases actor parent s name) [
      | inl stopped ↦ Refused-IsWellFormed (create_folder actor parent name s) s wf stopped
      | inr ((place, may_add), done) ↦ rw done (grown-IsWellFormed s _ wf small refl place)
    ]

    create_file-IsWellFormed :
        (actor parent name : String) → IsWellFormed (create_file actor parent name s).1
    create_file-IsWellFormed actor parent name = elim (create_file_cases actor parent s name) [
      | inl stopped ↦ Refused-IsWellFormed (create_file actor parent name s) s wf stopped
      | inr ((place, may_add), done) ↦ rw done (grown-IsWellFormed s _ wf small refl place)
    ]

    upload_content-IsWellFormed :
        (actor parent name : String) (mime : Option String) (content : Bytes)
        (properties : BTreeMap String)
        → IsWellFormed (upload_content actor parent name mime content properties s).1
    upload_content-IsWellFormed actor parent name mime content properties =
        elim (upload_content_cases actor parent s name mime content properties) [
          | inl stopped ↦
              Refused-IsWellFormed (upload_content actor parent name mime content properties s) s wf
                stopped
          | inr ((place, may_add), done) ↦ rw done (
              put_content-IsWellFormed _ (item_name s.next_id) content
                (grown-IsWellFormed s
                  (new_upload (item_name s.next_id) actor parent name mime content properties) wf
                  small refl place)
                (ground (
                  arith,
                  get-insert (item_name s.next_id) (item_name s.next_id)
                      (new_upload (item_name s.next_id) actor parent name mime content properties)
                      s.items,
                  eq_refl (item_name s.next_id),
                )))
        ]

-- Every request, done or refused, with any fuel, keeps the invariant, as long as the counter of
-- identifiers is not about to wrap around.
pub handle-IsWellFormed :
    (fuel : ℕ) (request : DriveRequest) (s : DriveTwinService)
    → s.next_id + 1 < u64_mod
    → IsWellFormed s
    → IsWellFormed (handle fuel request s).1
unfolding handle
handle-IsWellFormed fuel DriveRequest.health s small wf = wf
handle-IsWellFormed fuel (DriveRequest.create_folder actor parent name) s small wf =
    create_folder-IsWellFormed s wf small actor parent name
handle-IsWellFormed fuel (DriveRequest.create_file actor parent name) s small wf =
    create_file-IsWellFormed s wf small actor parent name
handle-IsWellFormed fuel (DriveRequest.list_children actor parent) s small wf =
    rw list_children-state wf
handle-IsWellFormed fuel (DriveRequest.set_permission actor id target role) s small wf =
    elim (set_permission_cases actor id target role s) [
      | inl stopped ↦ Refused-IsWellFormed (set_permission actor id target role s) s wf stopped
      | inr done ↦
          Edited-IsWellFormed actor id owner (with_permission target role)
            (set_permission actor id target role s) s wf (with_permission-IsFit s wf id target role)
            done
    ]
handle-IsWellFormed fuel (DriveRequest.move_item actor id parent) s small wf =
    elim (move_item_cases actor id s parent) [
      | inl stopped ↦ Refused-IsWellFormed (move_item actor id parent s) s wf stopped
      | inr (done, place, may_add, other) ↦
          Edited-IsWellFormed actor id editor (with_parent parent) (move_item actor id parent s) s
            wf (λ item. with_parent-IsFit s wf id parent item place other) done
    ]
handle-IsWellFormed fuel (DriveRequest.get_item actor id) s small wf = rw get_item-state wf
handle-IsWellFormed fuel (DriveRequest.delete_item actor id) s small wf =
    delete_item-IsWellFormed s wf fuel actor id
handle-IsWellFormed fuel (DriveRequest.update_item actor id name parent) s small wf =
    elim (update_item_cases actor id s name parent) [
      | inl stopped ↦ Refused-IsWellFormed (update_item actor id name parent s) s wf stopped
      | inr (done, may_move) ↦
          Edited-IsWellFormed actor id editor (edited name parent)
            (update_item actor id name parent s) s wf
            (λ item. edited-IsFit s wf actor id name parent item may_move) done
    ]
handle-IsWellFormed fuel (DriveRequest.upload_content actor parent name mime content properties) s
      small wf =
    upload_content-IsWellFormed s wf small actor parent name mime content properties
handle-IsWellFormed fuel (DriveRequest.download_content actor id) s small wf =
    rw download_content-state wf
