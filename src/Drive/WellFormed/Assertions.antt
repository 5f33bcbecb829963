-- ===== src/Drive/WellFormed/Assertions.antt =====
-- What the invariant means for the assertion `no_orphans`.
use agent_sandbox.Common.BTreeMap.Search.{get-tail}
use agent_sandbox.Drive.Outcomes.{has_place}
use agent_sandbox.Common.BTreeMap.Order.{IsSorted}
use agent_sandbox.Common.{String, Bool, ◌≡◌, true, some, false, ◌∷◌, any, arith, eq_refl, [], refl}
use agent_sandbox.Drive.Types.{DriveTwinService, DriveItem}
use agent_sandbox.Common.BTreeMap.{get, values, BTreeMap}
use agent_sandbox.Drive.Access.{has_orphans, is_orphan}
use agent_sandbox.Drive.WellFormed.{IsWellFormed}

any-values :
    {V : Type 0} (p : V → Bool) (m : BTreeMap V)
    → IsSorted m
    → ((k : String) (v : V) → get k m ≡ some v → p v ≡ false)
    → any p (values m) ≡ false
unfolding values
any-values p [] sorted h = refl
any-values p ((j, w) ∷ m) (above, sorted) h =
    rw (h j w (unfold get in rw eq_refl refl))
      (any-values p m sorted (λ k v e. h k v (get-tail j k v w m above e)))

placed-is_orphan :
    (items : BTreeMap DriveItem) (item : DriveItem)
    → has_place items item.parent_id ≡ true
    → is_orphan items item ≡ false
placed-is_orphan items item h = ground arith

-- In a state that meets the invariant the assertion `no_orphans` passes.
pub has_orphans-IsWellFormed : (s : DriveTwinService) → IsWellFormed s → has_orphans s ≡ false
unfolding has_orphans
has_orphans-IsWellFormed s wf =
    any-values (is_orphan s.items) s.items wf.sorted
      (λ k item e. placed-is_orphan s.items item (wf.placed k item e))
