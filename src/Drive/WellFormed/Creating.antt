-- ===== src/Drive/WellFormed/Creating.antt =====
-- New items: their identifiers are fresh, and their creation keeps the invariant.
use agent_sandbox.Drive.Outcomes.{has_place, holds_folder}
use agent_sandbox.Common.Text.Decimal.{parse_u64-to_string}
use agent_sandbox.Drive.Items.{HasOwnIds-insert}
use agent_sandbox.Common.BTreeMap.Order.{IsSorted-insert}
use agent_sandbox.Drive.Access.{parse_item_number, item_name}
use agent_sandbox.Common.BTreeMap.{get, contains_key, insert, get-insert}
use agent_sandbox.Drive.Create.{put_content, grown, put_item}
use agent_sandbox.Drive.Types.{DriveTwinService, DriveItem, Bytes}
use agent_sandbox.Common.{
  ℕ, String, ◌<◌, ◌+◌, u64_mod, ◌≡◌, true, none, Option, some, arith, Option-cases,
  strip_prefix-append, eq_iff, to_string, inl, refl, inr, ◌%◌, ◌≤◌,
}
use agent_sandbox.Drive.WellFormed.{IsWellFormed}

parse_item_number-item_name : (n : ℕ) → n < u64_mod → parse_item_number (item_name n) ≡ some n
parse_item_number-item_name n h =
    ground (arith, strip_prefix-append "item_" (to_string n), parse_u64-to_string n h)

-- The next identifier is no item's, so that creating an item overwrites nothing.
pub get-item_name_fresh :
    (s : DriveTwinService)
    → IsWellFormed s
    → s.next_id < u64_mod
    → get (item_name s.next_id) s.items ≡ none
get-item_name_fresh s wf small = elim (Option-cases (get (item_name s.next_id) s.items)) [
  | inl fresh ↦ fresh
  | inr (old, taken) ↦ absurd (
      omega (
        arith,
        wf.counted (item_name s.next_id) s.next_id (rw taken refl)
            (parse_item_number-item_name s.next_id small),
      ))
]

-- A new item with a fresh identifier and a place, and a counter that is past its number.
module _ (s : DriveTwinService) (item : DriveItem) (next : ℕ) (wf : IsWellFormed s)
    (fresh : get item.id s.items ≡ none) (place : has_place s.items item.parent_id ≡ true)
    (grows : s.next_id ≤ next)
    (past_it : (n : ℕ) → parse_item_number item.id ≡ some n → n < next) where
  holds_folder-insert :
      (o : String)
      → holds_folder (get o s.items) ≡ true
      → holds_folder (get o (insert item.id item s.items)) ≡ true
  holds_folder-insert o h =
      ground (arith, get-insert o item.id item s.items, eq_iff item.id o, fresh)

  has_place-insert :
      (o : Option String)
      → has_place s.items o ≡ true
      → has_place (insert item.id item s.items) o ≡ true
  has_place-insert none h = refl
  has_place-insert (some p) h = holds_folder-insert p h

  pub put_item-IsWellFormed : IsWellFormed (put_item item (record s { next_id = next }))
  put_item-IsWellFormed = record {
    sorted = IsSorted-insert item.id item s.items wf.sorted;
    own = HasOwnIds-insert s.items item.id item refl wf.own;
    root =
        ground
          (arith, get-insert "root" item.id item s.items, eq_iff item.id "root", wf.root, fresh);
    placed = λ k it e.
        has_place-insert it.parent_id
          (ground (arith, get-insert k item.id item s.items, wf.placed k it, place));
    content = λ k h. ground (arith, get-insert k item.id item s.items, wf.content k h);
    counted = λ k n h p. ground (
      arith,
      get-insert k item.id item s.items,
      eq_iff item.id k,
      wf.counted k n,
      past_it n,
      grows,
    );
  }

pub grown-IsWellFormed :
    (s : DriveTwinService) (item : DriveItem)
    → IsWellFormed s
    → s.next_id + 1 < u64_mod
    → item.id ≡ item_name s.next_id
    → has_place s.items item.parent_id ≡ true
    → IsWellFormed (grown item s)
grown-IsWellFormed s item wf small named place =
    put_item-IsWellFormed s item ((s.next_id + 1) % u64_mod) wf
      (rw named (get-item_name_fresh s wf (omega arith))) place (omega arith)
      (λ n e. ground (arith, named, parse_item_number-item_name s.next_id))

-- Content may be put under an item.
pub put_content-IsWellFormed :
    (s : DriveTwinService) (id : String) (content : Bytes)
    → IsWellFormed s
    → contains_key id s.items ≡ true
    → IsWellFormed (put_content id content s)
put_content-IsWellFormed s id content wf h = record {
  sorted = wf.sorted;
  own = wf.own;
  root = wf.root;
  placed = wf.placed;
  content = λ k c. ground (arith, get-insert k id content s.content, eq_iff id k, wf.content k);
  counted = wf.counted;
}
