-- ===== src/Drive/Seed.antt =====
-- Seeding: `seed_root`, `seed_item` and `seed_from_scenario`, from the files that serde has read.
-- `decode` is the base64 decoder, a library's, with its error's text.
pub mod Gentle
pub mod Keeping
pub mod Rounds
pub mod Walk
pub mod Examples
pub mod Presence
pub mod Seeded
use agent_sandbox.Drive.Create.{put_item, put_content}
use agent_sandbox.Common.BTreeMap.{BTreeMap, update, contains_key}
use agent_sandbox.Drive.Change.{bump_revision, write}
use agent_sandbox.Drive.Access.{bump_next_id, is_folder}
use agent_sandbox.Common.{
  ℕ, String, Option, pure, if◌then◌else◌, some, some, str_eq, filter, List, fail, none, none, err,
  length, not, ok, [], ◌<>◌, ◌+◌, ◌++◌, ◌∷◌, continue, suc, ◌==◌, Result, ◌>>=◌, gets, true, ◌>>◌,
  require, find, ltb, zero, false, modify,
}
use agent_sandbox.Drive.Types.{
  Drive, DriveItemKind, DriveItem, Bytes, owned_by, DriveTwinService, folder_mime, refused, folder,
  still_running, file, fetch,
}

pub record SeedFile : Type 0 where
  pub id : String
  pub name : String
  pub parent_id : Option String
  pub owner_id : String
  pub kind : DriveItemKind
  pub mime_type : Option String
  pub content : Option String
  pub app_properties : Option (BTreeMap String)

abbrev pub renamed_root : Option String → DriveItem → DriveItem
renamed_root none root = root
renamed_root (some name) root = record root { name = name }

abbrev pub owned_root : String → Option String → DriveItem → DriveItem
owned_root owner_id name root = bump_revision (record (renamed_root name root) {
  owner_id = owner_id;
  permissions =
      filter (λ p. not (str_eq p.actor_id owner_id)) root.permissions ++ owned_by owner_id;
})

unfoldable pub seed_root : String → Option String → Drive (Unit {0})
seed_root owner_id name = do
  root ← fetch "root" "root missing"
  modify (write "root" (owned_root owner_id name root))

-- The checks on the parent of a seed.
unfoldable pub check_seed_parent : Option String → Drive (Unit {0})
check_seed_parent none = pure tt
check_seed_parent (some parent_id) = do
  parent ← fetch parent_id "seed parent not found"
  require (is_folder parent.kind) (refused "seed parent must be folder")

abbrev pub kind_mime : DriveItemKind → Option String
kind_mime folder = some folder_mime
kind_mime file = none

abbrev pub seeded_item : String → String → Option String → String → DriveItemKind → DriveItem
seeded_item id name parent_id owner_id kind = record {
  id = id;
  name = name;
  kind = kind;
  parent_id = parent_id;
  owner_id = owner_id;
  permissions = owned_by owner_id;
  revision = 1;
  mime_type = kind_mime kind;
  size = none;
  app_properties = [];
}

abbrev pub put_seed : DriveItem → DriveTwinService → DriveTwinService
put_seed item s = put_item item (bump_next_id item.id s)

unfoldable pub seed_new :
    String → String → Option String → String → DriveItemKind → Drive (Unit {0})
unfolding bump_next_id
seed_new id name parent_id owner_id kind = do
  exists ← gets (λ s. contains_key id s.items)
  require (not exists) (refused "duplicate seed id")
  check_seed_parent parent_id
  modify (put_seed (seeded_item id name parent_id owner_id kind))

unfoldable pub seed_item :
    String → String → Option String → String → DriveItemKind → Drive (Unit {0})
seed_item id name parent_id owner_id kind =
    if str_eq id "root"
    then seed_root owner_id (some name)
    else seed_new id name parent_id owner_id kind

-- What a seed may say beyond the item itself.
abbrev pub with_mime : Option String → DriveItem → DriveItem
with_mime none item = item
with_mime (some mime) item = record item { mime_type = some mime }

abbrev pub with_properties : Option (BTreeMap String) → DriveItem → DriveItem
with_properties none item = item
with_properties (some properties) item = record item { app_properties = properties }

abbrev pub amend : String → (DriveItem → DriveItem) → DriveTwinService → DriveTwinService
amend id f s = record s { items = update id f s.items }

abbrev pub with_size : ℕ → DriveItem → DriveItem
with_size n item = record item { size = some n }

abbrev pub seed_first_root : Option SeedFile → Drive (Unit {0})
seed_first_root none = pure tt
seed_first_root (some f) = seed_root f.owner_id (some f.name)

-- Two rounds for each file, and two more, are enough.
abbrev pub enough_rounds : List SeedFile → ℕ
enough_rounds files = length files + length files + 2

module _ (decode : String → Result String Bytes) where
  abbrev pub store_decoded : String → Result String Bytes → Drive (Unit {0})
  store_decoded id (err e) =
      fail (refused ("failed to decode base64 content for " <> id <> ": " <> e))
  store_decoded id (ok bytes) =
      modify (λ s. put_content id bytes (amend id (with_size (length bytes)) s))

  abbrev pub store_content : String → Option String → Drive (Unit {0})
  store_content id none = pure tt
  store_content id (some encoded) = store_decoded id (decode encoded)

  unfoldable pub seed_extras : SeedFile → Drive (Unit {0})
  seed_extras f = do
    modify (amend f.id (with_mime f.mime_type))
    modify (amend f.id (with_properties f.app_properties))
    store_content f.id f.content

  -- One round over the pending seeds: a seed that is refused stays pending, whatever the reason.
  -- The result is what is still pending.
  unfoldable pub seed_round : List SeedFile → Drive (List SeedFile)
  seed_round [] s = (ok [], s)
  seed_round (f ∷ fs) s = elim (seed_item f.id f.name f.parent_id f.owner_id f.kind s).0 [
    | ok _ ↦
        continue (seed_extras f (seed_item f.id f.name f.parent_id f.owner_id f.kind s).1)
          (λ _. seed_round fs)
    | err _ ↦
        continue (seed_round fs (seed_item f.id f.name f.parent_id f.owner_id f.kind s).1)
          (λ rest. pure (f ∷ rest))
  ]

  -- The loop `while !pending.is_empty()`, with the number of rounds without progress.
  unfoldable pub seed_rounds : ℕ → ℕ → List SeedFile → Drive (Unit {0})
  seed_rounds zero stalled pending s = (err still_running, s)
  seed_rounds (suc fuel) stalled [] s = (ok tt, s)
  seed_rounds (suc fuel) stalled (f ∷ fs) s = continue (seed_round (f ∷ fs) s) λ rest t.
      elim (length rest == length (f ∷ fs)) [
        | true ↦ elim (ltb 1 (stalled + 1)) [
          | true ↦ (err (refused "invalid initial_state dependency graph"), t)
          | false ↦ seed_rounds fuel (stalled + 1) rest t
        ]
        | false ↦ seed_rounds fuel 0 rest t
      ]

  unfoldable pub seed_from_scenario : List SeedFile → Drive (Unit {0})
  seed_from_scenario files = do
    seed_first_root (find (λ f. str_eq f.id "root") files)
    let pending = filter (λ f. not (str_eq f.id "root")) files
    seed_rounds (enough_rounds files) 0 pending
