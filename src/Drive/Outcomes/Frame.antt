-- ===== src/Drive/Outcomes/Frame.antt =====
-- What a request can change: the items that it names, and no other.
use agent_sandbox.Drive.Delete.Removal.{delete_item-removes}
use agent_sandbox.Drive.Delete.{delete_item}
use agent_sandbox.Drive.Change.{
  set_permission, with_permission, move_item, with_parent, update_item, edited,
}
use agent_sandbox.Drive.Outcomes.Reads.{list_children-state, get_item-state, download_content-state}
use agent_sandbox.Drive.Outcomes.Creates.{
  create_folder_cases, create_file_cases, upload_content_cases,
}
use agent_sandbox.Drive.Outcomes.Changes.{
  Edited, set_permission_cases, move_item_cases, delete_item_cases, update_item_cases,
}
use agent_sandbox.Drive.Create.{grown, create_folder, create_file, upload_content}
use agent_sandbox.Drive.Delete.Subtree.{Below}
use agent_sandbox.Drive.Items.{HasOwnIds}
use agent_sandbox.Drive.Access.{item_name}
use agent_sandbox.Common.BTreeMap.Order.{IsSorted}
use agent_sandbox.Common.BTreeMap.{BTreeMap, get, insert, get-update, get-insert}
use agent_sandbox.Drive.Types.{
  DriveTwinService, DriveRequest, DriveItem, PermissionRole, Failure, DriveResponse, owner, editor,
  deleted,
}
use agent_sandbox.Common.{Result, ℕ, String, ◌≡◌, refl, arith, inl, eq_iff, inr}
use agent_sandbox.Drive.Handle.{handle}
use agent_sandbox.Drive.Outcomes.{Refused}

-- The identifiers that a request can touch in state `s`.
unfoldable pub Touches : DriveRequest → DriveTwinService → String → Type 0
Touches (DriveRequest.create_folder actor parent name) s k = item_name s.next_id ≡ k
Touches (DriveRequest.create_file actor parent name) s k = item_name s.next_id ≡ k
Touches (DriveRequest.upload_content actor parent name mime content properties) s k =
    item_name s.next_id ≡ k
Touches (DriveRequest.set_permission actor id target role) s k = id ≡ k
Touches (DriveRequest.move_item actor id parent) s k = id ≡ k
Touches (DriveRequest.update_item actor id name parent) s k = id ≡ k
Touches (DriveRequest.delete_item actor id) s k = Below s.items id k
Touches _ s k = ⊥

-- The items and contents agree at a key.
abbrev pub AgreeAt : String → DriveTwinService → DriveTwinService → Type 0
AgreeAt k s t = (get k t.items ≡ get k s.items) × (get k t.content ≡ get k s.content)

Refused-AgreeAt :
    {A : Type 0} (r : Result Failure A × DriveTwinService) (s : DriveTwinService) (k : String)
    → Refused r s
    → AgreeAt k s r.1
Refused-AgreeAt r s k (why, stopped) = rw stopped (refl, refl)

insert-apart :
    {V : Type 0} (j k : String) (v : V) (m : BTreeMap V)
    → ¬ (j ≡ k)
    → get k (insert j v m) ≡ get k m
insert-apart j k v m apart = ground (arith, get-insert k j v m, eq_iff j k)

grown-AgreeAt :
    (s : DriveTwinService) (item : DriveItem) (k : String)
    → ¬ (item.id ≡ k)
    → AgreeAt k s (grown item s)
grown-AgreeAt s item k apart = (insert-apart item.id k item s.items apart, refl)

Edited-AgreeAt :
    (actor id : String) (role : PermissionRole) (f : DriveItem → DriveItem)
    (r : Result Failure DriveResponse × DriveTwinService) (s : DriveTwinService) (k : String)
    → ¬ (id ≡ k)
    → Edited actor id role f r s
    → AgreeAt k s r.1
Edited-AgreeAt actor id role f r s k apart (item, found, allowed, done) =
    rw done (ground (arith, get-update k id (λ _. f item) s.items, eq_iff id k), refl)

-- An item or content that a request does not touch is the same after it, whether the request was
-- done or refused. A creation touches its fresh identifier alone, a change its item, a deletion what
-- lies below its item, and a read nothing.
pub handle-AgreeAt :
    (fuel : ℕ) (request : DriveRequest) (s : DriveTwinService) (k : String)
    → IsSorted s.items
    → HasOwnIds s.items
    → ¬ Touches request s k
    → AgreeAt k s (handle fuel request s).1
unfolding handle Touches
handle-AgreeAt fuel DriveRequest.health s k sorted own apart = (refl, refl)
handle-AgreeAt fuel (DriveRequest.create_folder actor parent name) s k sorted own apart =
    elim (create_folder_cases actor parent s name) [
      | inl stopped ↦ Refused-AgreeAt (create_folder actor parent name s) s k stopped
      | inr (allowed, done) ↦ rw done (grown-AgreeAt s _ k apart)
    ]
handle-AgreeAt fuel (DriveRequest.create_file actor parent name) s k sorted own apart =
    elim (create_file_cases actor parent s name) [
      | inl stopped ↦ Refused-AgreeAt (create_file actor parent name s) s k stopped
      | inr (allowed, done) ↦ rw done (grown-AgreeAt s _ k apart)
    ]
handle-AgreeAt fuel (DriveRequest.list_children actor parent) s k sorted own apart =
    rw list_children-state (refl, refl)
handle-AgreeAt fuel (DriveRequest.set_permission actor id target role) s k sorted own apart =
    elim (set_permission_cases actor id target role s) [
      | inl stopped ↦ Refused-AgreeAt (set_permission actor id target role s) s k stopped
      | inr done ↦
          Edited-AgreeAt actor id owner (with_permission target role)
            (set_permission actor id target role s) s k apart done
    ]
handle-AgreeAt fuel (DriveRequest.move_item actor id parent) s k sorted own apart =
    elim (move_item_cases actor id s parent) [
      | inl stopped ↦ Refused-AgreeAt (move_item actor id parent s) s k stopped
      | inr (done, place, may_add, other) ↦
          Edited-AgreeAt actor id editor (with_parent parent) (move_item actor id parent s) s k
            apart done
    ]
handle-AgreeAt fuel (DriveRequest.get_item actor id) s k sorted own apart =
    rw get_item-state (refl, refl)
handle-AgreeAt fuel (DriveRequest.delete_item actor id) s k sorted own apart =
    elim (delete_item_cases actor id s fuel) [
      | inl stopped ↦ Refused-AgreeAt (delete_item fuel actor id s) s k stopped
      | inr (item, found, allowed, other, out, ends, done) ↦
          (delete_item-removes fuel actor id s (deleted id) k sorted own (rw done refl)).1 apart
    ]
handle-AgreeAt fuel (DriveRequest.update_item actor id name parent) s k sorted own apart =
    elim (update_item_cases actor id s name parent) [
      | inl stopped ↦ Refused-AgreeAt (update_item actor id name parent s) s k stopped
      | inr (done, may_move) ↦
          Edited-AgreeAt actor id editor (edited name parent) (update_item actor id name parent s) s
            k apart done
    ]
handle-AgreeAt fuel (DriveRequest.upload_content actor parent name mime content properties) s k
      sorted own apart =
    elim (upload_content_cases actor parent s name mime content properties) [
      | inl stopped ↦
          Refused-AgreeAt (upload_content actor parent name mime content properties s) s k stopped
      | inr (allowed, done) ↦ rw done (
        insert-apart (item_name s.next_id) k _ s.items apart,
        insert-apart (item_name s.next_id) k content s.content apart,
      )
    ]
handle-AgreeAt fuel (DriveRequest.download_content actor id) s k sorted own apart =
    rw download_content-state (refl, refl)
