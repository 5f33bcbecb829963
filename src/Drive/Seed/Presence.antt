-- ===== src/Drive/Seed/Presence.antt =====
-- Seeding loses no item and no seed.
use agent_sandbox.Drive.Seed.Gentle.{
  contains_key-amend, with_mime-IsGentle, with_properties-IsGentle, with_size-IsGentle,
}
use agent_sandbox.Drive.Seed.Keeping.{seed_item_cases, seed_new_cases, seed_item-contains_key}
use agent_sandbox.Drive.Seed.Walk.{seed_round_walk}
use agent_sandbox.Common.BTreeMap.{contains_key, get, get-update, get-insert}
use agent_sandbox.Drive.Types.{Bytes, DriveItemKind, DriveTwinService}
use agent_sandbox.Drive.Access.{bump_next_id}
use agent_sandbox.Drive.Seed.{
  seed_root, seed_extras, SeedFile, seed_round, with_mime, seed_item, with_properties, amend,
  seeded_item, owned_root, with_size, seed_rounds,
}
use agent_sandbox.Common.{
  some, String, Result, Option, List, ◌≡◌, true, All-Unit, Option-cases, inl, inr, ◌∙◌, arith,
  Result-cases, length, ok, Bool, any, ◌⊎◌, ℕ, str_eq, suc, ◌∷◌, Bool-cases, zero, [], eq_iff, sym,
  find, ◌==◌, false, ltb, filter, none, ◌+◌, not, refl,
}

abbrev pub is_named : String → List SeedFile → Bool
is_named k fs = any (λ f. str_eq f.id k) fs

unnamed :
    (k : String) (fs : List SeedFile) → find (λ f. str_eq f.id k) fs ≡ none → is_named k fs ≡ false
unnamed k [] e = refl
unnamed k (f ∷ fs) e = ground (arith, unnamed k fs)

pub find-is_named :
    (k : String) (fs : List SeedFile)
    → is_named k fs ≡ true
    → (f : SeedFile) × (find (λ f. str_eq f.id k) fs ≡ some f)
find-is_named k fs named = elim (Option-cases (find (λ f. str_eq f.id k) fs)) [
  | inl missing ↦ absurd (ground (arith, unnamed k fs missing))
  | inr found ↦ found
]

-- A seed other than the root is not dropped with the root's seeds.
pub is_named-filter :
    (k : String) (fs : List SeedFile)
    → str_eq k "root" ≡ false
    → is_named k fs ≡ true
    → is_named k (filter (λ f. not (str_eq f.id "root")) fs) ≡ true
is_named-filter k [] other named = ground arith
is_named-filter k (f ∷ fs) other named =
    ground (arith, is_named-filter k fs other, eq_iff f.id k, eq_iff f.id "root", eq_iff k "root")

module _ (k : String) where
  seed_root-keeps :
      (owner_id : String) (name : Option String) (s : DriveTwinService)
      → contains_key k s.items ≡ true
      → contains_key k (seed_root owner_id name s).1.items ≡ true
  unfolding seed_root
  seed_root-keeps owner_id name s there = elim (Option-cases (get "root" s.items)) [
    | inl missing ↦ rw missing there
    | inr (root, found) ↦
        let law = get-update k "root" (λ _. owned_root owner_id name root) s.items in
        elim (Option-cases (get k s.items)) [
          | inl absent ↦ absurd (ground arith)
          | inr (item, present) ↦ rw found (ground (arith, law))
        ]
  ]

  seed_item-keeps :
      (id name : String) (parent : Option String) (owner_id : String) (kind : DriveItemKind)
      (s : DriveTwinService)
      → contains_key k s.items ≡ true
      → contains_key k (seed_item id name parent owner_id kind s).1.items ≡ true
  unfolding bump_next_id
  seed_item-keeps id name parent owner_id kind s there =
      elim (seed_item_cases id name parent owner_id kind s) [
        | inl (named, same) ↦ rw same (seed_root-keeps owner_id (some name) s there)
        | inr same ↦ elim (seed_new_cases id name parent owner_id kind s) [
          | inl (why, stopped) ↦ rw (same, stopped) there
          | inr (fresh, place, done) ↦
              let new = seeded_item id name parent owner_id kind in
              rw (same, done) (ground (arith, get-insert k id new s.items))
        ]
      ]

  module _ (decode : String → Result String Bytes) where
    seed_extras-keeps :
        (f : SeedFile) (s : DriveTwinService)
        → contains_key k s.items ≡ true
        → contains_key k (seed_extras decode f s).1.items ≡ true
    unfolding seed_extras
    seed_extras-keeps f s there =
        let m = with_mime f.mime_type in
        let p = with_properties f.app_properties in
        let typed = amend f.id m s in
        let described = amend f.id p typed in
        let there1 = contains_key-amend m (with_mime-IsGentle f.mime_type) f.id s k ∙ there in
        let there2 =
          contains_key-amend p (with_properties-IsGentle f.app_properties) f.id typed k ∙ there1 in
        elim (Option-cases f.content) [
          | inl nothing ↦ rw nothing there2
          | inr (encoded, given) ↦ elim (Result-cases (decode encoded)) [
            | inl (bytes, fine) ↦
                let n = length bytes in
                rw (given, fine)
                  (contains_key-amend (with_size n) (with_size-IsGentle n) f.id described k
                    ∙ there2)
            | inr (why, broken) ↦ rw (given, broken) there2
          ]
        ]

    abbrev HasKey : DriveTwinService → Type 0
    HasKey s = contains_key k s.items ≡ true

    seed_round-keeps :
        (fs : List SeedFile) (s : DriveTwinService) → HasKey s → HasKey (seed_round decode fs s).1
    seed_round-keeps fs s =
        seed_round_walk decode (λ f. Unit) HasKey
          (λ f t u. seed_item-keeps f.id f.name f.parent_id f.owner_id f.kind t)
          (λ f t u. seed_extras-keeps f t) fs s (All-Unit fs)

    -- A seed that a round takes is an item after it, and the others stay pending.
    seed_round-settles :
        (fs : List SeedFile) (s : DriveTwinService) (rest : List SeedFile)
        → (seed_round decode fs s).0 ≡ ok rest
        → is_named k fs ≡ true
        → (is_named k rest ≡ true) ⊎ HasKey (seed_round decode fs s).1
    unfolding seed_round
    seed_round-settles [] s rest e named = absurd (ground arith)
    seed_round-settles (f ∷ fs) s rest e named =
        let first = seed_item f.id f.name f.parent_id f.owner_id f.kind s in
        elim (Result-cases first.0) [
          | inl (tt, seeded) ↦
              let t = (seed_extras decode f first.1).1 in
              let run : seed_round decode (f ∷ fs) s ≡ seed_round decode fs t = ground arith in
              rw run (elim (Bool-cases (str_eq f.id k)) [
                | inl this ↦
                    let there =
                      seed_item-contains_key f.id f.name f.parent_id f.owner_id f.kind s seeded in
                    let same : f.id ≡ k = ground (arith, eq_iff f.id k) in
                    inr (seed_round-keeps fs t (seed_extras-keeps f first.1 (rw (sym same) there)))
                | inr other ↦ seed_round-settles fs t rest (ground arith) (ground arith)
              ])
          | inr (why, kept) ↦ elim (Result-cases (seed_round decode fs first.1).0) [
            | inl (others, ends) ↦
                let left : f ∷ others ≡ rest = ground arith in
                let after : (seed_round decode (f ∷ fs) s).1 ≡ (seed_round decode fs first.1).1 =
                  ground arith in
                rw (sym left, after)
                  (elim (Bool-cases (str_eq f.id k)) [
                    | inl this ↦ inl (ground arith)
                    | inr other ↦ elim (seed_round-settles fs first.1 others ends (ground arith)) [
                      | inl pending ↦ inl (ground arith)
                      | inr there ↦ inr there
                    ]
                  ])
            | inr (fault, broken) ↦ absurd (ground arith)
          ]
        ]

    pub seed_rounds-seeds :
        (fuel stalled : ℕ) (fs : List SeedFile) (s : DriveTwinService)
        → (seed_rounds decode fuel stalled fs s).0 ≡ ok tt
        → (is_named k fs ≡ true) ⊎ HasKey s
        → HasKey (seed_rounds decode fuel stalled fs s).1
    unfolding seed_rounds
    seed_rounds-seeds zero stalled fs s e given = absurd (ground arith)
    seed_rounds-seeds (suc fuel) stalled [] s e (inl named) = absurd (ground arith)
    seed_rounds-seeds (suc fuel) stalled [] s e (inr there) = there
    seed_rounds-seeds (suc fuel) stalled (f ∷ fs) s e given =
        let t = (seed_round decode (f ∷ fs) s).1 in
        elim (Result-cases (seed_round decode (f ∷ fs) s).0) [
          | inr (why, broken) ↦ absurd (ground arith)
          | inl (rest, ends) ↦
              let run = seed_rounds decode (suc fuel) stalled (f ∷ fs) s in
              let next : (is_named k rest ≡ true) ⊎ HasKey t = elim given [
                | inl named ↦ seed_round-settles (f ∷ fs) s rest ends named
                | inr there ↦ inr (seed_round-keeps (f ∷ fs) s there)
              ] in
              elim (Bool-cases (length rest == length (f ∷ fs))) [
                | inr shorter ↦
                    let step : run ≡ seed_rounds decode fuel 0 rest t = ground arith in
                    rw step (seed_rounds-seeds fuel 0 rest t (ground arith) next)
                | inl same ↦ elim (Bool-cases (ltb 1 (stalled + 1))) [
                  | inl over ↦ absurd (ground arith)
                  | inr again ↦
                      let step : run ≡ seed_rounds decode fuel (stalled + 1) rest t =
                        ground arith in
                      rw step (seed_rounds-seeds fuel (stalled + 1) rest t (ground arith) next)
                ]
              ]
        ]
