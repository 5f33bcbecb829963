-- ===== src/Drive/Outcomes/Refusals.antt =====
-- A request that is refused changes nothing.
use agent_sandbox.Drive.Delete.{delete_item}
use agent_sandbox.Drive.Change.{set_permission, move_item, update_item}
use agent_sandbox.Drive.Outcomes.Changes.{
  set_permission_cases, move_item_cases, delete_item_cases, update_item_cases,
}
use agent_sandbox.Drive.Outcomes.Reads.{list_children-state, get_item-state, download_content-state}
use agent_sandbox.Drive.Create.{create_folder, create_file, upload_content}
use agent_sandbox.Drive.Outcomes.Creates.{
  create_folder_cases, create_file_cases, upload_content_cases,
}
use agent_sandbox.Drive.Types.{DriveRequest, Failure, DriveTwinService}
use agent_sandbox.Common.{ℕ, Result, ◌≡◌, err, inl, inr, arith, refl}
use agent_sandbox.Drive.Handle.{handle}
use agent_sandbox.Drive.Outcomes.{Refused}

Refused-state :
    {A : Type 0} (r : Result Failure A × DriveTwinService) (s : DriveTwinService)
    → Refused r s
    → r.1 ≡ s
Refused-state r s (why, stopped) = rw stopped refl

-- Whatever error a request ends with, at whichever check, the state is the one that it began with:
-- no check stands behind a write, and no identifier is used up.
pub handle-refused :
    (fuel : ℕ) (request : DriveRequest) (s : DriveTwinService) (e : Failure)
    → (handle fuel request s).0 ≡ err e
    → (handle fuel request s).1 ≡ s
unfolding handle
handle-refused fuel DriveRequest.health s e h = refl
handle-refused fuel (DriveRequest.create_folder actor parent name) s e h =
    elim (create_folder_cases actor parent s name) [
      | inl stopped ↦ Refused-state (create_folder actor parent name s) s stopped
      | inr (allowed, done) ↦ absurd (ground arith)
    ]
handle-refused fuel (DriveRequest.create_file actor parent name) s e h =
    elim (create_file_cases actor parent s name) [
      | inl stopped ↦ Refused-state (create_file actor parent name s) s stopped
      | inr (allowed, done) ↦ absurd (ground arith)
    ]
handle-refused fuel (DriveRequest.list_children actor parent) s e h = rw list_children-state refl
handle-refused fuel (DriveRequest.set_permission actor id target role) s e h =
    elim (set_permission_cases actor id target role s) [
      | inl stopped ↦ Refused-state (set_permission actor id target role s) s stopped
      | inr (item, found, allowed, done) ↦ absurd (ground arith)
    ]
handle-refused fuel (DriveRequest.move_item actor id parent) s e h =
    elim (move_item_cases actor id s parent) [
      | inl stopped ↦ Refused-state (move_item actor id parent s) s stopped
      | inr ((item, found, allowed, done), place, may_add, other) ↦ absurd (ground arith)
    ]
handle-refused fuel (DriveRequest.get_item actor id) s e h = rw get_item-state refl
handle-refused fuel (DriveRequest.delete_item actor id) s e h =
    elim (delete_item_cases actor id s fuel) [
      | inl stopped ↦ Refused-state (delete_item fuel actor id s) s stopped
      | inr (item, found, allowed, other, out, ends, done) ↦ absurd (ground arith)
    ]
handle-refused fuel (DriveRequest.update_item actor id name parent) s e h =
    elim (update_item_cases actor id s name parent) [
      | inl stopped ↦ Refused-state (update_item actor id name parent s) s stopped
      | inr ((item, found, allowed, done), may_move) ↦ absurd (ground arith)
    ]
handle-refused fuel (DriveRequest.upload_content actor parent name mime content properties) s e h =
    elim (upload_content_cases actor parent s name mime content properties) [
      | inl stopped ↦
          Refused-state (upload_content actor parent name mime content properties s) s stopped
      | inr (allowed, done) ↦ absurd (ground arith)
    ]
handle-refused fuel (DriveRequest.download_content actor id) s e h = rw download_content-state refl
