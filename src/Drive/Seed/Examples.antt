-- ===== src/Drive/Seed/Examples.antt =====
-- A seed whose child comes before its parent, and the theorems about seeding at it.
use agent_sandbox.Common.BTreeMap.{get, insert, update, keys, contains_key}
use agent_sandbox.Drive.Seed.Keeping.{IsCountable}
use agent_sandbox.Drive.WellFormed.Default.{default_service-IsWellFormed}
use agent_sandbox.Drive.Seed.Seeded.{
  seed_from_scenario-IsWellFormed, seed_from_scenario_end, seed_from_scenario-seeds,
}
use agent_sandbox.Drive.Types.{file, folder, default_service, Bytes, still_running, refused}
use agent_sandbox.Drive.Seed.{
  SeedFile, seed_from_scenario, seed_rounds, seed_round, seed_item, seed_new, check_seed_parent,
  seed_extras,
}
use agent_sandbox.Drive.WellFormed.{IsWellFormed}
use agent_sandbox.Common.{
  [], none, some, List, strip_prefix, String, ◌∷◌, Result, parse_u64, All, ◌≢◌, ok, err, arith, ◌≡◌,
  refl, true,
}

-- What the decoder says of "aGk=", the only content in the examples.
abbrev pub decode_hi : String → Result String Bytes
decode_hi text = ok (104 ∷ 105 ∷ [])

abbrev pub docs : SeedFile
docs = record {
  id = "docs";
  name = "Docs";
  parent_id = some "root";
  owner_id = "alice";
  kind = folder;
  mime_type = none;
  content = none;
  app_properties = none;
}

abbrev pub note : SeedFile
note = record {
  id = "item_7";
  name = "note";
  parent_id = some "docs";
  owner_id = "alice";
  kind = file;
  mime_type = some "text/plain";
  content = some "aGk=";
  app_properties = none;
}

abbrev pub seed_files : List SeedFile
seed_files = note ∷ docs ∷ []

-- Two rounds are needed, and the counter is past the seeded number.
seeded_keys :
    (keys (seed_from_scenario decode_hi seed_files default_service).1.items
      ≡ "docs" ∷ "item_7" ∷ "root" ∷ [])
    × ((seed_from_scenario decode_hi seed_files default_service).1.next_id ≡ 8)
unfolding seed_from_scenario seed_rounds seed_round seed_item seed_new check_seed_parent seed_extras
    get insert update keys strip_prefix parse_u64
seeded_keys = (refl, refl)

abbrev lost : SeedFile
lost = record note { parent_id = some "nowhere" }

-- A parent that never comes is refused after two rounds without progress.
parent_never_comes :
    (seed_from_scenario decode_hi (lost ∷ []) default_service).0
    ≡ err (refused "invalid initial_state dependency graph")
unfolding seed_from_scenario seed_rounds seed_round seed_item seed_new check_seed_parent get
parent_never_comes = refl

pub numbers_are_small : All (λ f. IsCountable f.id) seed_files
unfolding strip_prefix parse_u64
numbers_are_small = (λ n e. ground arith, (λ n e. ground arith, tt))

seed_from_scenario-IsWellFormed_example :
    IsWellFormed (seed_from_scenario decode_hi seed_files default_service).1
seed_from_scenario-IsWellFormed_example =
    seed_from_scenario-IsWellFormed decode_hi seed_files default_service numbers_are_small
      default_service-IsWellFormed

seed_from_scenario_end_example :
    (seed_from_scenario decode_hi (lost ∷ seed_files) default_service).0 ≢ err still_running
seed_from_scenario_end_example =
    seed_from_scenario_end decode_hi (lost ∷ seed_files) default_service

seed_from_scenario-seeds_example :
    contains_key "item_7" (seed_from_scenario decode_hi seed_files default_service).1.items ≡ true
unfolding seed_from_scenario seed_rounds seed_round seed_item seed_new check_seed_parent seed_extras
    get insert update
seed_from_scenario-seeds_example =
    seed_from_scenario-seeds decode_hi seed_files default_service "item_7" refl refl
