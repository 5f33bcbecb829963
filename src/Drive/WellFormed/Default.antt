-- ===== src/Drive/WellFormed/Default.antt =====
-- The state of a new service.
use agent_sandbox.Drive.Access.{parse_item_number}
use agent_sandbox.Drive.Types.{default_service}
use agent_sandbox.Drive.WellFormed.{IsWellFormed}
use agent_sandbox.Common.{strip_prefix, String, ℕ, ◌≡◌, some, arith, ap, eq_iff, refl}
use agent_sandbox.Common.BTreeMap.{get}

pub default_service-IsWellFormed : IsWellFormed default_service
unfolding get strip_prefix
default_service-IsWellFormed = record {
  sorted = (tt, tt);
  own = (refl, tt);
  root = refl;
  placed = λ k item e. ground (arith, eq_iff "root" k);
  content = λ k h. ground arith;
  counted = λ k n h p. absurd (not_numbered k n (ground (arith, eq_iff "root" k)) p);
}
  where
    not_numbered : (k : String) (n : ℕ) → "root" ≡ k → parse_item_number k ≡ some n → ⊥
    not_numbered k n e p = ground (arith, ap parse_item_number e)
