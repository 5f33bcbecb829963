-- ===== src/Server/Runtime.antt =====
-- `TwinRuntime`: a kernel and a service, and their snapshots.
use agent_sandbox.Kernel.{TwinState, TwinConfig}
use agent_sandbox.Common.{Op, TwinError}
use agent_sandbox.Server.Types.{TwinService, TwinRuntime}
use agent_sandbox.Kernel

module _ {V T : Type 0} (null : V) (twin : TwinService V T) where
  unfoldable pub reset : TwinConfig → TwinRuntime V T → TwinRuntime V T
  reset config rt = record { kernel = Kernel.reset null config rt.kernel; service = twin.default }

module _ {V T : Type 0} (twin : TwinService V T) where
  unfoldable pub full_snapshot : TwinRuntime V T → TwinState V
  full_snapshot rt = record (Kernel.snapshot rt.kernel) {
    service_state = twin.service_snapshot rt.service;
  }

  -- The kernel is restored first, and stays so when the service refuses.
  unfoldable pub full_restore : TwinState V → Op TwinError (TwinRuntime V T) (Unit {0})
  full_restore snapshot rt =
      let (r, service) = twin.service_restore snapshot.service_state rt.service in
      (r, record { kernel = Kernel.restore snapshot rt.kernel; service = service })

  -- `rt.service.seed_from_scenario(value)`
  unfoldable pub seed : V → Op TwinError (TwinRuntime V T) (Unit {0})
  seed value rt =
      let (r, service) = twin.seed_from_scenario value rt.service in
      (r, record rt { service = service })
