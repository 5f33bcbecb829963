-- ===== src/Drive/Outcomes/RoundTrip.antt =====
-- What was uploaded is what is downloaded, and a granted role is the role that counts.
use agent_sandbox.Drive.Outcomes.Creates.{upload_content_cases}
use agent_sandbox.Drive.Outcomes.Changes.{set_permission_cases}
use agent_sandbox.Drive.Read.{download_content}
use agent_sandbox.Drive.Create.{upload_content, new_upload, put_content, grown}
use agent_sandbox.Common.BTreeMap.{BTreeMap, get, get-update, get-insert}
use agent_sandbox.Drive.Types.{
  DriveItem, PermissionRole, Bytes, DriveTwinService, Permission, DriveResponse, owned_by, viewer,
  content_of, content_created,
}
use agent_sandbox.Drive.Access.{has_role, permission_of, item_name, rank}
use agent_sandbox.Common.{
  String, Option, List, ◌≡◌, ok, true, if◌then◌else◌, arith, str_eq, eq_refl, some, leb, ◌∷◌,
  eq_iff, length, inl, [], inr, refl,
}
use agent_sandbox.Drive.Change.{grant, set_permission, with_permission}
use agent_sandbox.Drive.Outcomes.{may}

own_role :
    (actor : String) (item : DriveItem)
    → item.permissions ≡ owned_by actor
    → has_role item actor viewer ≡ true
unfolding has_role
own_role actor item e = rw e (ground (arith, eq_refl actor))

-- After an upload that is done, its author downloads the new item with the content that was sent,
-- byte by byte, and the item says the number of the bytes.
pub upload-download :
    (actor parent name : String) (mime : Option String) (content : Bytes)
    (properties : BTreeMap String) (s : DriveTwinService) (r : DriveResponse)
    → let u = upload_content actor parent name mime content properties s in
      let id = item_name s.next_id in
      u.0 ≡ ok r
      → (item : DriveItem) × ((download_content actor id u.1).0 ≡ ok (content_of item content))
        × (r ≡ content_created item (length content))
        × (item.size ≡ some (length content))
        × (item.parent_id ≡ some parent)
upload-download actor parent name mime content properties s r e =
    elim (upload_content_cases actor parent s name mime content properties) [
      | inl (why, stopped) ↦ absurd (ground arith)
      | inr (allowed, done) ↦ (item, rw done found, ground arith, refl, refl)
    ]
  where
    id : String
    id = item_name s.next_id

    item : DriveItem
    item = new_upload id actor parent name mime content properties

    found :
        (download_content actor id (put_content id content (grown item s))).0
        ≡ ok (content_of item content)
    found =
        unfold download_content in
        ground (
          arith,
          get-insert id id item s.items,
          get-insert id id content s.content,
          eq_refl id,
          own_role actor item refl,
        )

pub permission_of-grant :
    (target : String) (role : PermissionRole) (ps : List Permission) (actor : String)
    → permission_of (grant target role ps) actor ≡ (
        if str_eq target actor
        then some (record { actor_id = target; role = role })
        else permission_of ps actor)
unfolding grant
permission_of-grant target role [] actor = ground arith
permission_of-grant target role (p ∷ ps) actor = ground (
  arith,
  eq_iff p.actor_id target,
  eq_iff p.actor_id actor,
  eq_iff target actor,
  permission_of-grant target role ps actor,
)

-- After a permission was set, the target has on the item exactly the roles up to the granted one,
-- lower ones than before included, and every other actor has what it had.
pub set_permission-has_role :
    (actor id target : String) (role : PermissionRole) (s : DriveTwinService) (r : DriveResponse)
    (other : String) (least : PermissionRole)
    → (set_permission actor id target role s).0 ≡ ok r
    → (may (get id (set_permission actor id target role s).1.items) other least) ≡ (
        if str_eq target other
        then leb (rank least) (rank role)
        else may (get id s.items) other least)
set_permission-has_role actor id target role s r other least e =
    elim (set_permission_cases actor id target role s) [
      | inl (why, stopped) ↦ absurd (ground arith)
      | inr (item, found, allowed, done) ↦ rw done (
          unfold has_role in
          ground (
            arith,
            found,
            get-update id id (λ _. with_permission target role item) s.items,
            eq_refl id,
            permission_of-grant target role item.permissions other,
          ))
    ]
