-- ===== src/Drive/WellFormed/Writing.antt =====
-- Changing an item in place keeps the invariant, if its identifier and kind stay and its parent, if
-- it changes, is a folder.
use agent_sandbox.Drive.Outcomes.{holds_folder, has_place}
use agent_sandbox.Drive.Items.{HasOwnIds-update, own_id_of_get}
use agent_sandbox.Common.BTreeMap.Order.{IsSorted-update}
use agent_sandbox.Drive.Change.{write}
use agent_sandbox.Common.BTreeMap.{contains_key, get, get-update}
use agent_sandbox.Common.{
  String, Option, ◌∙◌, ◌≡◌, arith, if◌then◌else◌, some, true, eq_iff, str_eq, sym, none, refl,
}
use agent_sandbox.Drive.Types.{DriveTwinService, DriveItem}
use agent_sandbox.Drive.WellFormed.{IsWellFormed}

-- What a change of an item may do.
pub record IsFit (s : DriveTwinService) (key : String) (old new : DriveItem) : Type 0 where
  pub found : get key s.items ≡ some old
  pub same_id : new.id ≡ old.id
  pub same_kind : new.kind ≡ old.kind
  pub place : has_place s.items new.parent_id ≡ true
  pub top : str_eq key "root" ≡ true → new.parent_id ≡ old.parent_id

module _ (s : DriveTwinService) (key : String) (old new : DriveItem)
    (fit : IsFit s key old new) where
  get-write :
      (j : String)
      → get j (write key new s).items ≡ (if str_eq key j then some new else get j s.items)
  get-write j = ground (arith, get-update j key (λ _. new) s.items, eq_iff key j, fit.found)

  holds_folder-write :
      (j : String) → holds_folder (get j (write key new s).items) ≡ holds_folder (get j s.items)
  holds_folder-write j = ground (arith, get-write j, eq_iff key j, fit.found, fit.same_kind)

  has_place-write : (o : Option String) → has_place (write key new s).items o ≡ has_place s.items o
  has_place-write none = refl
  has_place-write (some p) = holds_folder-write p

  contains_key-write :
      (j : String) → contains_key j (write key new s).items ≡ contains_key j s.items
  contains_key-write j = ground (arith, get-write j, eq_iff key j, fit.found)

  pub write-IsWellFormed : IsWellFormed s → IsWellFormed (write key new s)
  write-IsWellFormed wf = record {
    sorted = IsSorted-update key (λ _. new) s.items wf.sorted;
    own =
        HasOwnIds-update s.items key new
          (fit.same_id ∙ own_id_of_get s.items key old wf.own fit.found) wf.own;
    root =
        ground
          (arith, get-write "root", eq_iff key "root", wf.root, fit.found, fit.same_kind, fit.top);
    placed = λ k item e.
        has_place-write item.parent_id ∙ ground (arith, get-write k, wf.placed k item, fit.place);
    content = λ k h. contains_key-write k ∙ wf.content k h;
    counted = λ k n h p. wf.counted k n (sym (contains_key-write k) ∙ h) p;
  }
