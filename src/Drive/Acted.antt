-- ===== src/Drive/Acted.antt =====
-- The Drive twin under a timeline of actions.
use agent_sandbox.Drive.Acting.{drive_action-state}
use agent_sandbox.Drive.WellFormed.Assertions.{has_orphans-IsWellFormed}
use agent_sandbox.Drive.WellFormed.Handling.{handle-IsWellFormed}
use agent_sandbox.Drive.WellFormed.{IsWellFormed}
use agent_sandbox.Drive.Change.{write}
use agent_sandbox.Drive.Outcomes.Changes.{
  set_permission_cases, move_item_cases, delete_item_cases, update_item_cases,
}
use agent_sandbox.Drive.Outcomes.Reads.{list_children-state, get_item-state, download_content-state}
use agent_sandbox.Drive.Outcomes.Creates.{
  create_folder_cases, create_file_cases, upload_content_cases,
}
use agent_sandbox.Common.BTreeMap.{remove}
use agent_sandbox.Drive.Delete.{remove_all}
use agent_sandbox.Drive.Handle.{handle}
use agent_sandbox.Drive.Scenario.{drive_action, act_all, drive_assertion, check_no_orphans}
use agent_sandbox.Gmail.Scenario.{choose}
use agent_sandbox.Common.{
  [], ◌∷◌, ok, u64_mod, true, String, Option, List, ◌≡◌, Result, ℕ, refl, ◌+◌, ◌<◌, ◌≤◌, inl, arith,
  inr, suc, length, some,
}
use agent_sandbox.Drive.Types.{DriveTwinService, DriveRequest, DriveResponse}

remove_all-next_id :
    (ids : List String) (s : DriveTwinService) → (remove_all ids s).next_id ≡ s.next_id
unfolding remove_all
remove_all-next_id [] s = refl
remove_all-next_id (id ∷ ids) s =
    remove_all-next_id ids (record s { items = remove id s.items; content = remove id s.content })

-- A request draws at most one number.
handle-next_id :
    (fuel : ℕ) (r : DriveRequest) (s : DriveTwinService)
    → s.next_id + 1 < u64_mod
    → (handle fuel r s).1.next_id ≤ s.next_id + 1
unfolding handle
handle-next_id fuel DriveRequest.health s small = omega arith
handle-next_id fuel (DriveRequest.create_folder actor parent name) s small =
    elim (create_folder_cases actor parent s name) [
      | inl (e, stopped) ↦ rw stopped (omega arith)
      | inr (allowed, done) ↦ rw done (omega arith)
    ]
handle-next_id fuel (DriveRequest.create_file actor parent name) s small =
    elim (create_file_cases actor parent s name) [
      | inl (e, stopped) ↦ rw stopped (omega arith)
      | inr (allowed, done) ↦ rw done (omega arith)
    ]
handle-next_id fuel (DriveRequest.list_children actor parent) s small =
    rw list_children-state (omega arith)
handle-next_id fuel (DriveRequest.set_permission actor id target role) s small =
    elim (set_permission_cases actor id target role s) [
      | inl (e, stopped) ↦ rw stopped (omega arith)
      | inr (item, found, allowed, done) ↦ rw done (unfold write in omega arith)
    ]
handle-next_id fuel (DriveRequest.move_item actor id parent) s small =
    elim (move_item_cases actor id s parent) [
      | inl (e, stopped) ↦ rw stopped (omega arith)
      | inr ((item, found, allowed, done), place, may_add, other) ↦
          rw done (unfold write in omega arith)
    ]
handle-next_id fuel (DriveRequest.get_item actor id) s small = rw get_item-state (omega arith)
handle-next_id fuel (DriveRequest.delete_item actor id) s small =
    elim (delete_item_cases actor id s fuel) [
      | inl (e, stopped) ↦ rw stopped (omega arith)
      | inr (item, found, allowed, other, out, ends, done) ↦
          rw done (rw remove_all-next_id (omega arith))
    ]
handle-next_id fuel (DriveRequest.update_item actor id name parent) s small =
    elim (update_item_cases actor id s name parent) [
      | inl (e, stopped) ↦ rw stopped (omega arith)
      | inr ((item, found, allowed, done), may_move) ↦ rw done (unfold write in omega arith)
    ]
handle-next_id fuel (DriveRequest.upload_content actor parent name mime content properties) s
      small =
    elim (upload_content_cases actor parent s name mime content properties) [
      | inl (e, stopped) ↦ rw stopped (omega arith)
      | inr (allowed, done) ↦ rw done (omega arith)
    ]
handle-next_id fuel (DriveRequest.download_content actor id) s small =
    rw download_content-state (omega arith)

-- The invariant, and the numbers that are left for `n` more requests.
abbrev IsReady : ℕ → DriveTwinService → Type 0
IsReady n s = IsWellFormed s × (s.next_id + n < u64_mod)

module _ {V : Type 0} (str_field : V → String → Option String)
    (to_value : DriveResponse → Result String V) (fuel : ℕ) where
  drive_action-IsReady :
      (n : ℕ) (v : V) (actor : String) (s : DriveTwinService)
      → IsReady (suc n) s
      → IsReady n (drive_action str_field to_value fuel v actor s).1
  drive_action-IsReady n v actor s (wf, small) =
      drive_action-state str_field to_value (IsReady n) fuel v actor s (wf, omega arith)
        λ r.
          let grows = handle-next_id fuel r s (omega arith) in
          (handle-IsWellFormed fuel r s (omega arith) wf, omega arith)

  act_all-IsWellFormed :
      (actions : List (V × String)) (s : DriveTwinService)
      → IsReady (length actions) s
      → IsWellFormed (act_all str_field to_value fuel actions s)
  unfolding act_all
  act_all-IsWellFormed [] s (wf, small) = wf
  act_all-IsWellFormed ((action, actor) ∷ rest) s ready =
      act_all-IsWellFormed rest _ (drive_action-IsReady (length rest) action actor s ready)

  -- After any timeline of actions on a well-formed state, each of them done or refused, the state is
  -- well formed and the assertion `no_orphans` passes, if the numbers left do not wrap around for the
  -- number of actions.
  pub act_all-no_orphans :
      (actions : List (V × String)) (check : V) (s : DriveTwinService)
      → IsWellFormed s
      → s.next_id + length actions < u64_mod
      → str_field check "type" ≡ some "no_orphans"
      → let t = act_all str_field to_value fuel actions s in
        IsWellFormed t
        × (drive_assertion str_field to_value check t
            ≡ (ok (record { id = "no_orphans"; passed = true; message = "no orphan items" }), t))
  unfolding drive_assertion choose check_no_orphans
  act_all-no_orphans actions check s wf small kind =
      let fine = act_all-IsWellFormed actions s (wf, small) in
      (
        fine,
        rw (kind, has_orphans-IsWellFormed (act_all str_field to_value fuel actions s) fine) refl,
      )
