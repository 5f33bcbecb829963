-- ===== src/Server/DriveTwin.antt =====
-- The Drive twin behind the server core. Serde's parts are parameters: `encode` and `restore` for
-- snapshots, and `read` for the files of a seed; `decode` is the base64 decoder.
use agent_sandbox.Drive.Seed.Seeded.{seed_from_scenario-IsWellFormed}
use agent_sandbox.Drive.WellFormed.Default.{default_service-IsWellFormed}
use agent_sandbox.Drive.WellFormed.{IsWellFormed}
use agent_sandbox.Drive.Seed.Keeping.{IsCountable}
use agent_sandbox.Server.Control.{control_seed}
use agent_sandbox.Server.Types.{TwinService, AppState}
use agent_sandbox.Drive.Seed.{SeedFile, seed_from_scenario}
use agent_sandbox.Common.{
  Result, TwinError, List, ok, err, String, Op, ◌≡◌, All, Bool, refl, true, Result-cases, inl, inr,
  operation,
}
use agent_sandbox.Drive.Types.{
  Failure, DriveTwinService, Bytes, default_service, error, still_running,
}
use agent_sandbox.Server.Runtime

-- The model's own failure, for fuel that is spent, does not come out of a seed.
abbrev pub lifted : Failure → TwinError
lifted (error e) = e
lifted still_running = operation ""

abbrev pub lift_result :
    Result Failure (Unit {0}) × DriveTwinService → Result TwinError (Unit {0}) × DriveTwinService
lift_result (ok u, s) = (ok u, s)
lift_result (err e, s) = (err (lifted e), s)

module _ {V : Type 0} (encode : DriveTwinService → V)
    (restore : V → Result TwinError DriveTwinService) (read : V → Result TwinError (List SeedFile))
    (decode : String → Result String Bytes) where
  abbrev pub restore_drive :
      Result TwinError DriveTwinService → Op TwinError DriveTwinService (Unit {0})
  restore_drive (ok t) s = (ok tt, t)
  restore_drive (err e) s = (err e, s)

  abbrev pub seed_drive :
      Result TwinError (List SeedFile) → Op TwinError DriveTwinService (Unit {0})
  seed_drive (ok files) s = lift_result (seed_from_scenario decode files s)
  seed_drive (err e) s = (err e, s)

  abbrev pub drive : TwinService V DriveTwinService
  drive = record {
    default = default_service;
    service_snapshot = encode;
    service_restore = λ v. restore_drive (restore v);
    seed_from_scenario = λ v. seed_drive (read v);
  }

  lift_result-service : (r : Result Failure (Unit {0}) × DriveTwinService) → (lift_result r).1 ≡ r.1
  lift_result-service (ok u, s) = refl
  lift_result-service (err e, s) = refl

  seed_drive-IsWellFormed :
      (v : V) (s : DriveTwinService)
      → ((files : List SeedFile) → read v ≡ ok files → All (λ f. IsCountable f.id) files)
      → IsWellFormed s
      → IsWellFormed (seed_drive (read v) s).1
  seed_drive-IsWellFormed v s small wf = elim (Result-cases (read v)) [
    | inl (files, fine) ↦
        let after = seed_from_scenario-IsWellFormed decode files s (small files fine) wf in
        rw (fine, lift_result-service (seed_from_scenario decode files s)) after
    | inr (e, broken) ↦ rw broken wf
  ]

  -- Whatever the state of a server for the Drive twin, a seed that is a JSON object leaves the twin's
  -- state well formed, accepted or refused, if no file in it has an identifier whose number wraps
  -- the counter around.
  pub control_seed-IsWellFormed :
      {F R : Type 0} (null : V) (is_object : V → Bool) (body : V)
      (s : AppState V DriveTwinService F R)
      → is_object body ≡ true
      → ((files : List SeedFile) → read body ≡ ok files → All (λ f. IsCountable f.id) files)
      → IsWellFormed (control_seed null drive is_object body s).1.runtime.service
  unfolding control_seed Runtime.reset Runtime.seed
  control_seed-IsWellFormed null is_object body s object small =
      let after = seed_drive-IsWellFormed body default_service small default_service-IsWellFormed in
      elim (Result-cases (seed_drive (read body) default_service).0) [
        | inl (tt, fine) ↦ rw (object, fine) after
        | inr (e, broken) ↦ rw (object, broken) after
      ]
