-- ===== src/Drive/Delete/Loop.antt =====
-- The loop of `delete_item` collects what lies below its start, and nothing else.
use agent_sandbox.Common.{
  ℕ, zero, suc, String, ◌≡◌, true, ◌||◌, some, List, [], ◌∷◌, ◌++◌, ◌↔◌, inl, inr, arith, eq_iff,
  eq_refl, Bool-cases, contains, contains-append,
}
use agent_sandbox.Common.BTreeMap.{BTreeMap}
use agent_sandbox.Common.BTreeMap.Order.{IsSorted}
use agent_sandbox.Drive.Types.{DriveItem}
use agent_sandbox.Drive.Items.{HasOwnIds}
use agent_sandbox.Drive.Delete.{kids, collect}
use agent_sandbox.Drive.Delete.Subtree.{Below, here, child, kids_of_child, IsChild-of_kids}

-- All members of the list lie below `r`.
abbrev pub AllBelow : BTreeMap DriveItem → String → List String → Type 0
AllBelow items r xs = (c : String) → contains c xs ≡ true → Below items r c

-- The children of the members of `xs` are members of `ys`.
abbrev pub IsClosedIn : BTreeMap DriveItem → List String → List String → Type 0
IsClosedIn items xs ys =
    (p c : String) → contains p xs ≡ true → contains c (kids items p) ≡ true → contains c ys ≡ true

module _ (items : BTreeMap DriveItem) where
  regroup :
      (x c : String) (seen queue ks : List String)
      → contains c ((seen ++ x ∷ []) ++ (queue ++ ks))
        ≡ (contains c (seen ++ (x ∷ queue)) || contains c ks)
  regroup x c seen queue ks = ground (
    arith,
    contains-append c (seen ++ x ∷ []) (queue ++ ks),
    contains-append c seen (x ∷ []),
    contains-append c queue ks,
    contains-append c seen (x ∷ queue),
  )

  collect-AllBelow :
      (r : String) (fuel : ℕ) (seen queue : List String) {out : List String}
      → IsSorted items
      → HasOwnIds items
      → AllBelow items r (seen ++ queue)
      → collect items fuel seen queue ≡ some out
      → AllBelow items r out
  unfolding collect
  collect-AllBelow r zero seen queue sorted own below e = λ c h. absurd (cc)
  collect-AllBelow r (suc fuel) seen [] sorted own below e =
      λ c h. below c (ground (arith, contains-append c seen []))
  collect-AllBelow r (suc fuel) seen (x ∷ queue) sorted own below e =
      collect-AllBelow r fuel (seen ++ x ∷ []) (queue ++ kids items x) sorted own
        (λ c h. elim (Bool-cases (contains c (seen ++ (x ∷ queue)))) [
          | inl old ↦ below c old
          | inr new ↦
              child (below x (ground (arith, eq_refl x, contains-append x seen (x ∷ queue)))) (
                IsChild-of_kids items x c sorted own
                  (ground (arith, regroup x c seen queue (kids items x))))
        ])
        e

  collect-IsClosedIn :
      (fuel : ℕ) (seen queue : List String) {out : List String}
      → IsClosedIn items seen (seen ++ queue)
      → collect items fuel seen queue ≡ some out
      → IsClosedIn items out out
        × ((c : String) → contains c (seen ++ queue) ≡ true → contains c out ≡ true)
  unfolding collect
  collect-IsClosedIn zero seen queue closed e = absurd (cc)
  collect-IsClosedIn (suc fuel) seen [] closed e = (
    λ p c h k. ground (arith, contains-append c seen [], closed p c),
    λ c h. ground (arith, contains-append c seen []),
  )
  collect-IsClosedIn (suc fuel) seen (x ∷ queue) closed e =
      let (inside, onto) =
        collect-IsClosedIn fuel (seen ++ x ∷ []) (queue ++ kids items x)
          (λ p c h k. ground (
            arith,
            contains-append p seen (x ∷ []),
            regroup x c seen queue (kids items x),
            closed p c,
            eq_iff x p,
          ))
          e in
      (inside, λ c h. onto c (ground (arith, regroup x c seen queue (kids items x))))

  Below-of_closed :
      (out : List String) {r c : String}
      → HasOwnIds items
      → IsClosedIn items out out
      → contains r out ≡ true
      → Below items r c
      → contains c out ≡ true
  Below-of_closed out own closed start here = start
  Below-of_closed out {c = c} own closed start (child {q = q} b (item, e, parent)) =
      closed q c (Below-of_closed out own closed start b)
        (kids_of_child items q c item own e parent)

-- When the loop ends, `to_delete` holds exactly what lies below the item.
pub collect-Below :
    (items : BTreeMap DriveItem) (fuel : ℕ) (r c : String) {out : List String}
    → IsSorted items
    → HasOwnIds items
    → collect items fuel [] (r ∷ []) ≡ some out
    → (contains c out ≡ true) ↔ Below items r c
collect-Below items fuel r c {out} sorted own e =
    let (closed, onto) = collect-IsClosedIn items fuel [] (r ∷ []) (λ p c h k. cc) e in
    (
      λ h. collect-AllBelow items r fuel [] (r ∷ []) sorted own (only r items) e c h,
      λ b. Below-of_closed items out own closed (onto r (ground (arith, eq_refl r))) b,
    )
  where
    only : (r : String) (items : BTreeMap DriveItem) → AllBelow items r (r ∷ [])
    only r items = λ c h. rw (← (eq_iff r c).0 (ground arith)) here
