-- ===== src/Drive/Outcomes/Rights.antt =====
-- The access table of the requests, and what a refusal leaves.
use agent_sandbox.Drive.Outcomes.Creates.{
  create_folder_cases, create_file_cases, upload_content_cases,
}
use agent_sandbox.Common.BTreeMap.{get}
use agent_sandbox.Drive.Read.{download_content, get_item, list_children}
use agent_sandbox.Drive.Outcomes.Changes.{
  MayMove, set_permission_cases, move_item_cases, delete_item_cases, update_item_cases,
}
use agent_sandbox.Drive.Types.{DriveRequest, DriveTwinService, DriveResponse, viewer, editor, owner}
use agent_sandbox.Common.{
  String, ℕ, Option, Bool, true, ◌≡◌, ok, some, none, arith, refl, inl, ◌&&◌, inr,
}
use agent_sandbox.Drive.Handle.{handle}
use agent_sandbox.Drive.Outcomes.{may}

-- Who may do what: a role on each item that the request names.
abbrev pub may_enter : Option String → String → DriveTwinService → Bool
may_enter none actor s = true
may_enter (some parent) actor s = may (get parent s.items) actor editor

unfoldable pub grants : DriveRequest → DriveTwinService → Bool
grants DriveRequest.health s = true
grants (DriveRequest.create_folder actor parent name) s = may (get parent s.items) actor editor
grants (DriveRequest.create_file actor parent name) s = may (get parent s.items) actor editor
grants (DriveRequest.list_children actor parent) s = may (get parent s.items) actor viewer
grants (DriveRequest.set_permission actor id target role) s = may (get id s.items) actor owner
grants (DriveRequest.move_item actor id parent) s =
    may (get id s.items) actor editor && may (get parent s.items) actor editor
grants (DriveRequest.get_item actor id) s = may (get id s.items) actor viewer
grants (DriveRequest.delete_item actor id) s = may (get id s.items) actor editor
grants (DriveRequest.update_item actor id name parent) s =
    may (get id s.items) actor editor && may_enter parent actor s
grants (DriveRequest.upload_content actor parent name mime content properties) s =
    may (get parent s.items) actor editor
grants (DriveRequest.download_content actor id) s = may (get id s.items) actor viewer

-- A read ends with the state as it was; it is done only with the viewer's role.
module _ (actor id : String) (s : DriveTwinService) (r : DriveResponse) where
  list_children-may : (list_children actor id s).0 ≡ ok r → may (get id s.items) actor viewer ≡ true
  unfolding list_children
  list_children-may e = ground arith

  get_item-may : (get_item actor id s).0 ≡ ok r → may (get id s.items) actor viewer ≡ true
  unfolding get_item
  get_item-may e = ground arith

  download_content-may :
      (download_content actor id s).0 ≡ ok r → may (get id s.items) actor viewer ≡ true
  unfolding download_content
  download_content-may e = ground arith

MayMove-may_enter :
    (actor id : String) (s : DriveTwinService) (parent : Option String)
    → MayMove actor id s parent
    → may_enter parent actor s ≡ true
MayMove-may_enter actor id s none h = refl
MayMove-may_enter actor id s (some parent) h = h.1

-- A request that gets a response was made by an actor with the roles of the access table: no branch
-- of the code skips its check.
pub handle-grants :
    (fuel : ℕ) (request : DriveRequest) (s : DriveTwinService) (r : DriveResponse)
    → (handle fuel request s).0 ≡ ok r
    → grants request s ≡ true
unfolding handle grants
handle-grants fuel DriveRequest.health s r e = refl
handle-grants fuel (DriveRequest.create_folder actor parent name) s r e =
    elim (create_folder_cases actor parent s name) [
      | inl (why, stopped) ↦ absurd (ground arith)
      | inr ((place, may_add), done) ↦ may_add
    ]
handle-grants fuel (DriveRequest.create_file actor parent name) s r e =
    elim (create_file_cases actor parent s name) [
      | inl (why, stopped) ↦ absurd (ground arith)
      | inr ((place, may_add), done) ↦ may_add
    ]
handle-grants fuel (DriveRequest.list_children actor parent) s r e =
    list_children-may actor parent s r e
handle-grants fuel (DriveRequest.set_permission actor id target role) s r e =
    elim (set_permission_cases actor id target role s) [
      | inl (why, stopped) ↦ absurd (ground arith)
      | inr (item, found, allowed, done) ↦ rw found allowed
    ]
handle-grants fuel (DriveRequest.move_item actor id parent) s r e =
    elim (move_item_cases actor id s parent) [
      | inl (why, stopped) ↦ absurd (ground arith)
      | inr ((item, found, allowed, done), place, may_add, other) ↦ rw (found, allowed) may_add
    ]
handle-grants fuel (DriveRequest.get_item actor id) s r e = get_item-may actor id s r e
handle-grants fuel (DriveRequest.delete_item actor id) s r e =
    elim (delete_item_cases actor id s fuel) [
      | inl (why, stopped) ↦ absurd (ground arith)
      | inr (item, found, allowed, other, out, ends, done) ↦ rw found allowed
    ]
handle-grants fuel (DriveRequest.update_item actor id name parent) s r e =
    elim (update_item_cases actor id s name parent) [
      | inl (why, stopped) ↦ absurd (ground arith)
      | inr ((item, found, allowed, done), may_move) ↦
          rw (found, allowed) (MayMove-may_enter actor id s parent may_move)
    ]
handle-grants fuel (DriveRequest.upload_content actor parent name mime content properties) s r e =
    elim (upload_content_cases actor parent s name mime content properties) [
      | inl (why, stopped) ↦ absurd (ground arith)
      | inr ((place, may_add), done) ↦ may_add
    ]
handle-grants fuel (DriveRequest.download_content actor id) s r e =
    download_content-may actor id s r e
