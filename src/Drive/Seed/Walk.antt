-- ===== src/Drive/Seed/Walk.antt =====
-- What holds of the state all along `seed_from_scenario`.
use agent_sandbox.Drive.Seed.Keeping.{seed_item-contains_key}
use agent_sandbox.Common.BTreeMap.{contains_key}
use agent_sandbox.Drive.Seed.{
  SeedFile, seed_item, seed_extras, seed_round, seed_rounds, seed_from_scenario, seed_root,
  enough_rounds,
}
use agent_sandbox.Drive.Types.{Bytes, DriveTwinService}
use agent_sandbox.Common.{
  String, Result, ◌≡◌, true, List, All, ◌∷◌, Result-cases, inl, inr, [], ℕ, suc, zero, ok,
  Bool-cases, arith, length, sym, ◌==◌, ltb, ◌+◌, some, filter, not, str_eq, All-filter,
  Option-cases, find,
}

-- What is pending after a round was pending before it.
seed_round_fits :
    (decode : String → Result String Bytes) (Fits : SeedFile → Type 0) (fs : List SeedFile)
    (s : DriveTwinService) (rest : List SeedFile)
    → All Fits fs
    → (seed_round decode fs s).0 ≡ ok rest
    → All Fits rest
unfolding seed_round
seed_round_fits decode Fits [] s rest fits e =
    let none_left : [] ≡ rest = ground arith in rw (sym none_left) tt
seed_round_fits decode Fits (f ∷ fs) s rest (fit, fits) e =
    let first = seed_item f.id f.name f.parent_id f.owner_id f.kind s in
    elim (Result-cases first.0) [
      | inl (tt, seeded) ↦
          let t = (seed_extras decode f first.1).1 in
          seed_round_fits decode Fits fs t rest fits (ground arith)
      | inr (why, kept) ↦ elim (Result-cases (seed_round decode fs first.1).0) [
        | inl (others, ends) ↦
            let same : f ∷ others ≡ rest = ground arith in
            rw (sym same) (fit, seed_round_fits decode Fits fs first.1 others fits ends)
        | inr (fault, broken) ↦ absurd (ground arith)
      ]
    ]

module _ (decode : String → Result String Bytes) (Fits : SeedFile → Type 0)
    (Holds : DriveTwinService → Type 0)
    (item : (f : SeedFile) (s : DriveTwinService)
      → Fits f
      → Holds s
      → Holds (seed_item f.id f.name f.parent_id f.owner_id f.kind s).1)
    (extras : (f : SeedFile) (s : DriveTwinService)
      → contains_key f.id s.items ≡ true
      → Holds s
      → Holds (seed_extras decode f s).1) where
  pub seed_round_walk :
      (fs : List SeedFile) (s : DriveTwinService)
      → All Fits fs
      → Holds s
      → Holds (seed_round decode fs s).1
  unfolding seed_round
  seed_round_walk [] s fits h = h
  seed_round_walk (f ∷ fs) s (fit, fits) h =
      let first = seed_item f.id f.name f.parent_id f.owner_id f.kind s in
      elim (Result-cases first.0) [
        | inl (tt, seeded) ↦
            let there = seed_item-contains_key f.id f.name f.parent_id f.owner_id f.kind s seeded in
            let after = extras f first.1 there (item f s fit h) in
            rw (seed_round, seeded)
              (elim (Result-cases (seed_extras decode f first.1).0) [
                | inl (tt, fine) ↦
                    rw fine (seed_round_walk fs (seed_extras decode f first.1).1 fits after)
                | inr (why, broken) ↦ rw broken after
              ])
        | inr (why, kept) ↦
            let rest = seed_round_walk fs first.1 fits (item f s fit h) in
            rw (seed_round, kept)
              (elim (Result-cases (seed_round decode fs first.1).0) [
                | inl (others, fine) ↦ rw fine rest
                | inr (fault, broken) ↦ rw broken rest
              ])
      ]

  pub seed_rounds_walk :
      (fuel stalled : ℕ) (fs : List SeedFile) (s : DriveTwinService)
      → All Fits fs
      → Holds s
      → Holds (seed_rounds decode fuel stalled fs s).1
  unfolding seed_rounds
  seed_rounds_walk zero stalled fs s fits h = h
  seed_rounds_walk (suc fuel) stalled [] s fits h = h
  seed_rounds_walk (suc fuel) stalled (f ∷ fs) s fits h =
      let t = (seed_round decode (f ∷ fs) s).1 in
      let after = seed_round_walk (f ∷ fs) s fits h in
      elim (Result-cases (seed_round decode (f ∷ fs) s).0) [
        | inr (why, broken) ↦ rw (seed_rounds, broken) after
        | inl (rest, ends) ↦
            let kept = seed_round_fits decode Fits (f ∷ fs) s rest fits ends in
            -- the round and then the next one
            let run = seed_rounds decode (suc fuel) stalled (f ∷ fs) s in
            elim (Bool-cases (length rest == length (f ∷ fs))) [
              | inr shorter ↦
                  let step : run ≡ seed_rounds decode fuel 0 rest t = ground arith in
                  rw step (seed_rounds_walk fuel 0 rest t kept after)
              | inl same ↦ elim (Bool-cases (ltb 1 (stalled + 1))) [
                | inl over ↦ let stop : run.1 ≡ t = ground arith in rw stop after
                | inr again ↦
                    let step : run ≡ seed_rounds decode fuel (stalled + 1) rest t = ground arith in
                    rw step (seed_rounds_walk fuel (stalled + 1) rest t kept after)
              ]
            ]
      ]

  pub seed_from_scenario_walk :
      (files : List SeedFile) (s : DriveTwinService)
      → ((owner_id name : String) (t : DriveTwinService)
          → Holds t
          → Holds (seed_root owner_id (some name) t).1)
      → All Fits files
      → Holds s
      → Holds (seed_from_scenario decode files s).1
  unfolding seed_from_scenario
  seed_from_scenario_walk files s root fits h =
      let pending = filter (λ f. not (str_eq f.id "root")) files in
      let kept = All-filter Fits (λ f. not (str_eq f.id "root")) files fits in
      elim (Option-cases (find (λ f. str_eq f.id "root") files)) [
        | inl missing ↦ rw missing (seed_rounds_walk (enough_rounds files) 0 pending s kept h)
        | inr (f, found) ↦
            let first = seed_root f.owner_id (some f.name) s in
            let after = root f.owner_id f.name s h in
            rw found (elim (Result-cases first.0) [
              | inl (tt, fine) ↦
                  rw fine (seed_rounds_walk (enough_rounds files) 0 pending first.1 kept after)
              | inr (why, broken) ↦ rw broken after
            ])
      ]
