-- ===== src/Drive/Seed/Gentle.antt =====
-- Changes of one item in place that keep the invariant of the state.
use agent_sandbox.Common.BTreeMap.Order.{IsSorted-update}
use agent_sandbox.Drive.Outcomes.{holds_folder, has_place}
use agent_sandbox.Drive.WellFormed.{IsWellFormed}
use agent_sandbox.Drive.Items.{HasOwnIds}
use agent_sandbox.Drive.Seed.{with_size, with_mime, with_properties, amend}
use agent_sandbox.Drive.Types.{DriveItem, DriveTwinService}
use agent_sandbox.Common.BTreeMap.{update, BTreeMap, contains_key, get, get-update}
use agent_sandbox.Common.{
  [], none, some, ◌∷◌, Option, ℕ, String, ◌≡◌, refl, arith, true, Option-cases, inl, inr, ◌∙◌,
  Bool-cases, sym, str_eq,
}

-- A change that leaves the identifier, the kind and the parent of an item alone.
pub record IsGentle (f : DriveItem → DriveItem) : Type 0 where
  pub same_id : (item : DriveItem) → (f item).id ≡ item.id
  pub same_kind : (item : DriveItem) → (f item).kind ≡ item.kind
  pub same_parent : (item : DriveItem) → (f item).parent_id ≡ item.parent_id

HasOwnIds-amend :
    (f : DriveItem → DriveItem) (key : String) (items : BTreeMap DriveItem)
    → IsGentle f
    → HasOwnIds items
    → HasOwnIds (update key f items)
unfolding update
HasOwnIds-amend f key [] gentle own = tt
HasOwnIds-amend f key ((j, it) ∷ items) gentle (same, own) =
    (ground (arith, gentle.same_id it), HasOwnIds-amend f key items gentle own)

module _ (f : DriveItem → DriveItem) (gentle : IsGentle f) (key : String)
    (s : DriveTwinService) where
  holds_folder-amend :
      (j : String) → holds_folder (get j (amend key f s).items) ≡ holds_folder (get j s.items)
  holds_folder-amend j = elim (Option-cases (get j s.items)) [
    | inl missing ↦ ground (arith, get-update j key f s.items)
    | inr (item, found) ↦ ground (arith, get-update j key f s.items, gentle.same_kind item)
  ]

  has_place-amend : (o : Option String) → has_place (amend key f s).items o ≡ has_place s.items o
  has_place-amend none = refl
  has_place-amend (some p) = holds_folder-amend p

  pub contains_key-amend :
      (j : String) → contains_key j (amend key f s).items ≡ contains_key j s.items
  contains_key-amend j = elim (Option-cases (get j s.items)) [
    | inl missing ↦ ground (arith, get-update j key f s.items)
    | inr (item, found) ↦ ground (arith, get-update j key f s.items)
  ]

  placed-amend :
      (k : String) (item : DriveItem)
      → IsWellFormed s
      → get k (amend key f s).items ≡ some item
      → has_place s.items item.parent_id ≡ true
  placed-amend k item wf e = elim (Option-cases (get k s.items)) [
    | inl missing ↦ absurd (ground (arith, get-update k key f s.items))
    | inr (old, found) ↦
        let place = wf.placed k old found in
        let kept = gentle.same_parent old in
        elim (Bool-cases (str_eq key k)) [
          | inl same ↦
              let new : item ≡ f old = ground (arith, get-update k key f s.items) in
              rw (new, kept) place
          | inr other ↦
              let new : item ≡ old = ground (arith, get-update k key f s.items) in rw new place
        ]
  ]

  pub amend-IsWellFormed : IsWellFormed s → IsWellFormed (amend key f s)
  amend-IsWellFormed wf = record {
    sorted = IsSorted-update key f s.items wf.sorted;
    own = HasOwnIds-amend f key s.items gentle wf.own;
    root = elim (Option-cases (get "root" s.items)) [
      | inl missing ↦ absurd (ground (arith, wf.root))
      | inr (old, found) ↦ ground (
        arith,
        get-update "root" key f s.items,
        wf.root,
        gentle.same_kind old,
        gentle.same_parent old,
      )
    ];
    placed = λ k item e. has_place-amend item.parent_id ∙ placed-amend k item wf e;
    content = λ k h. contains_key-amend k ∙ wf.content k h;
    counted = λ k n h p. wf.counted k n (sym (contains_key-amend k) ∙ h) p;
  }

pub with_mime-IsGentle : (mime : Option String) → IsGentle (with_mime mime)
with_mime-IsGentle none = record {
  same_id = λ i. refl;
  same_kind = λ i. refl;
  same_parent = λ i. refl;
}
with_mime-IsGentle (some m) = record {
  same_id = λ i. refl;
  same_kind = λ i. refl;
  same_parent = λ i. refl;
}

pub with_properties-IsGentle :
    (properties : Option (BTreeMap String)) → IsGentle (with_properties properties)
with_properties-IsGentle none = record {
  same_id = λ i. refl;
  same_kind = λ i. refl;
  same_parent = λ i. refl;
}
with_properties-IsGentle (some p) = record {
  same_id = λ i. refl;
  same_kind = λ i. refl;
  same_parent = λ i. refl;
}

pub with_size-IsGentle : (n : ℕ) → IsGentle (with_size n)
with_size-IsGentle n = record {
  same_id = λ i. refl;
  same_kind = λ i. refl;
  same_parent = λ i. refl;
}
