-- ===== src/Drive/Seed/Seeded.antt =====
-- What `seed_from_scenario` guarantees.
use agent_sandbox.Drive.Seed.Presence.{is_named, seed_rounds-seeds, find-is_named, is_named-filter}
use agent_sandbox.Drive.WellFormed.Creating.{put_content-IsWellFormed}
use agent_sandbox.Drive.Seed.Rounds.{seed_rounds_end}
use agent_sandbox.Drive.Seed.Walk.{seed_from_scenario_walk}
use agent_sandbox.Drive.WellFormed.{IsWellFormed}
use agent_sandbox.Drive.Seed.Gentle.{
  amend-IsWellFormed, with_mime-IsGentle, with_properties-IsGentle, contains_key-amend,
  with_size-IsGentle,
}
use agent_sandbox.Drive.Seed.Keeping.{
  IsCountable, seed_item-IsWellFormed, seed_root-IsWellFormed, seed_root-contains_key,
}
use agent_sandbox.Common.BTreeMap.{contains_key}
use agent_sandbox.Drive.Seed.{
  seed_root, seed_extras, seed_from_scenario, SeedFile, seed_first_root, with_mime, with_properties,
  amend, enough_rounds, with_size, seed_rounds,
}
use agent_sandbox.Drive.Types.{Bytes, DriveTwinService, still_running}
use agent_sandbox.Common.{
  some, String, Result, List, Option, ◌≢◌, All, ◌≡◌, err, true, arith, filter, not, str_eq, find,
  length-filter-le, ◌∙◌, Result-cases, Option-cases, inl, inr, length, ok, Bool-cases, eq_iff, sym,
}

module _ (decode : String → Result String Bytes) where
  seed_extras-IsWellFormed :
      (f : SeedFile) (s : DriveTwinService)
      → contains_key f.id s.items ≡ true
      → IsWellFormed s
      → IsWellFormed (seed_extras decode f s).1
  unfolding seed_extras
  seed_extras-IsWellFormed f s there wf =
      let m = with_mime f.mime_type in
      let p = with_properties f.app_properties in
      let typed = amend f.id m s in
      let described = amend f.id p typed in
      let typed_wf = amend-IsWellFormed m (with_mime-IsGentle f.mime_type) f.id s wf in
      let wf2 =
        amend-IsWellFormed p (with_properties-IsGentle f.app_properties) f.id typed typed_wf in
      let there1 = contains_key-amend m (with_mime-IsGentle f.mime_type) f.id s f.id ∙ there in
      let there2 =
        contains_key-amend p (with_properties-IsGentle f.app_properties) f.id typed f.id ∙ there1 in
      elim (Option-cases f.content) [
        | inl nothing ↦ rw nothing wf2
        | inr (encoded, given) ↦ elim (Result-cases (decode encoded)) [
          | inl (bytes, fine) ↦
              let n = length bytes in
              let sized = amend f.id (with_size n) described in
              rw (given, fine)
                (put_content-IsWellFormed sized f.id bytes
                  (amend-IsWellFormed (with_size n) (with_size-IsGentle n) f.id described wf2)
                  (contains_key-amend (with_size n) (with_size-IsGentle n) f.id described f.id
                    ∙ there2))
          | inr (why, broken) ↦ rw (given, broken) wf2
        ]
      ]

  -- If no seed's identifier has a number that wraps the counter around, then seeding a well-formed
  -- state leaves a well-formed state, whether the seeds are accepted or refused.
  pub seed_from_scenario-IsWellFormed :
      (files : List SeedFile) (s : DriveTwinService)
      → All (λ f. IsCountable f.id) files
      → IsWellFormed s
      → IsWellFormed (seed_from_scenario decode files s).1
  seed_from_scenario-IsWellFormed files s small wf =
      seed_from_scenario_walk decode (λ f. IsCountable f.id) IsWellFormed
        (λ f t. seed_item-IsWellFormed f.id f.name f.parent_id f.owner_id f.kind t)
        seed_extras-IsWellFormed files s
        (λ owner_id name t. seed_root-IsWellFormed owner_id (some name) t) small wf

  seed_root_end :
      (owner_id : String) (name : Option String) (s : DriveTwinService)
      → (seed_root owner_id name s).0 ≢ err still_running
  unfolding seed_root
  seed_root_end owner_id name s = ground arith

  -- The loop over the pending seeds ends: two rounds for each file, and two more, are enough.
  pub seed_from_scenario_end :
      (files : List SeedFile) (s : DriveTwinService)
      → (seed_from_scenario decode files s).0 ≢ err still_running
  unfolding seed_from_scenario
  seed_from_scenario_end files s =
      let pending = filter (λ f. not (str_eq f.id "root")) files in
      let fewer = length-filter-le (λ f. not (str_eq f.id "root")) files in
      let ended : (t : DriveTwinService)
          → (seed_rounds decode (enough_rounds files) 0 pending t).0 ≢ err still_running =
        λ t.
          seed_rounds_end decode (enough_rounds files) 0 pending t (omega arith)
            (omega (arith, fewer)) in
      elim (Option-cases (find (λ f. str_eq f.id "root") files)) [
        | inl missing ↦ rw missing (ended s)
        | inr (f, found) ↦
            let first = seed_root f.owner_id (some f.name) s in
            rw found (elim (Result-cases first.0) [
              | inl (tt, fine) ↦ rw fine (ended first.1)
              | inr (why, broken) ↦
                  rw broken (ground (arith, seed_root_end f.owner_id (some f.name) s))
            ])
      ]

  first_root-there :
      (files : List SeedFile) (s : DriveTwinService)
      → is_named "root" files ≡ true
      → (seed_first_root (find (λ f. str_eq f.id "root") files) s).0 ≡ ok tt
      → contains_key "root" (seed_first_root (find (λ f. str_eq f.id "root") files) s).1.items
        ≡ true
  first_root-there files s named fine =
      let (f, found) = find-is_named "root" files named in
      rw found (seed_root-contains_key f.owner_id (some f.name) s cc)

  -- If the seeding is done, every seed is an item.
  pub seed_from_scenario-seeds :
      (files : List SeedFile) (s : DriveTwinService) (k : String)
      → (seed_from_scenario decode files s).0 ≡ ok tt
      → is_named k files ≡ true
      → contains_key k (seed_from_scenario decode files s).1.items ≡ true
  unfolding seed_from_scenario
  seed_from_scenario-seeds files s k e named =
      let pending = filter (λ f. not (str_eq f.id "root")) files in
      let n = enough_rounds files in
      let start = seed_first_root (find (λ f. str_eq f.id "root") files) s in
      elim (Result-cases start.0) [
        | inr (why, broken) ↦ absurd (ground arith)
        | inl (tt, fine) ↦
            let run : seed_from_scenario decode files s ≡ seed_rounds decode n 0 pending start.1 =
              ground arith in
            let ends : (seed_rounds decode n 0 pending start.1).0 ≡ ok tt = ground arith in
            rw run (
              seed_rounds-seeds k decode n 0 pending start.1 ends
                (elim (Bool-cases (str_eq k "root")) [
                  | inr other ↦ inl (is_named-filter k files other named)
                  | inl this ↦
                      let same : k ≡ "root" = ground (arith, eq_iff k "root") in
                      inr (rw same (first_root-there files s (rw (sym same) named) fine))
                ]))
      ]
