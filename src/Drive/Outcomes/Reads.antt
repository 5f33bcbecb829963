-- ===== src/Drive/Outcomes/Reads.antt =====
-- The requests that only read leave the state as it is.
use agent_sandbox.Drive.Read.{download_content, get_item, list_children}
use agent_sandbox.Drive.Types.{DriveTwinService}
use agent_sandbox.Common.{String, ◌≡◌, arith}

module _ (actor id : String) (s : DriveTwinService) where
  pub list_children-state : (list_children actor id s).1 ≡ s
  unfolding list_children
  list_children-state = ground arith

  pub get_item-state : (get_item actor id s).1 ≡ s
  unfolding get_item
  get_item-state = ground arith

  pub download_content-state : (download_content actor id s).1 ≡ s
  unfolding download_content
  download_content-state = ground arith
