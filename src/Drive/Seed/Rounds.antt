-- ===== src/Drive/Seed/Rounds.antt =====
-- The rounds of `seed_from_scenario` end, and what they leave.
use agent_sandbox.Drive.Types.{Bytes, DriveTwinService, still_running}
use agent_sandbox.Common.{
  String, Result, List, ℕ, ◌≤◌, ◌≡◌, length, ok, arith, ◌+◌, ◌<◌, ◌∷◌, ◌≢◌, [], err, suc, zero,
  Result-cases, inl, inr,
}
use agent_sandbox.Drive.Seed.{SeedFile, seed_round, seed_rounds, seed_extras, seed_item}

module _ (decode : String → Result String Bytes) where
  -- A round that returns leaves at most as many seeds pending as there were.
  length-seed_round :
      (fs : List SeedFile) (s : DriveTwinService) (rest : List SeedFile)
      → (seed_round decode fs s).0 ≡ ok rest
      → length rest ≤ length fs
  unfolding seed_round
  length-seed_round [] s rest e = ground arith
  length-seed_round (f ∷ fs) s rest e =
      let first = seed_item f.id f.name f.parent_id f.owner_id f.kind s in
      elim (Result-cases first.0) [
        | inl (done, seeded) ↦
            let after = (seed_extras decode f first.1).1 in
            ground (arith, length-seed_round fs after rest)
        | inr (why, kept) ↦ elim (Result-cases (seed_round decode fs first.1).0) [
          | inl (others, ends) ↦ ground (arith, length-seed_round fs first.1 others ends)
          | inr (fault, broken) ↦ absurd (ground arith)
        ]
      ]

  seed_extras_end :
      (f : SeedFile) (s : DriveTwinService) → (seed_extras decode f s).0 ≢ err still_running
  unfolding seed_extras
  seed_extras_end f s = ground arith

  seed_round_end :
      (fs : List SeedFile) (s : DriveTwinService) → (seed_round decode fs s).0 ≢ err still_running
  unfolding seed_round
  seed_round_end [] s = λ e. cc
  seed_round_end (f ∷ fs) s =
      let first = seed_item f.id f.name f.parent_id f.owner_id f.kind s in
      ground (
        arith,
        seed_extras_end f first.1,
        seed_round_end fs (seed_extras decode f first.1).1,
        seed_round_end fs first.1,
      )

  -- The outer loop is over before its fuel is spent.
  pub seed_rounds_end :
      (fuel stalled : ℕ) (fs : List SeedFile) (s : DriveTwinService)
      → stalled ≤ 1
      → length fs + length fs + 1 < fuel + stalled
      → (seed_rounds decode fuel stalled fs s).0 ≢ err still_running
  unfolding seed_rounds
  seed_rounds_end zero stalled fs s one enough = absurd (omega arith)
  seed_rounds_end (suc fuel) stalled [] s one enough = λ e. cc
  seed_rounds_end (suc fuel) stalled (f ∷ fs) s one enough =
      elim (Result-cases (seed_round decode (f ∷ fs) s).0) [
        | inl (rest, ends) ↦
            let shorter = length-seed_round (f ∷ fs) s rest ends in
            let t = (seed_round decode (f ∷ fs) s).1 in
            ground (
              arith,
              shorter,
              seed_rounds_end fuel (stalled + 1) rest t,
              seed_rounds_end fuel 0 rest t,
            )
        | inr (why, broken) ↦ ground (arith, seed_round_end (f ∷ fs) s)
      ]
