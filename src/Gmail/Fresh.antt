-- ===== src/Gmail/Fresh.antt =====
-- After a seed the identifiers that the twin draws are new.
use agent_sandbox.Gmail.Threading.{bump_next_id}
use mathlib.Core.Path.{subst}
use agent_sandbox.Common.Text.Decimal.{all_chars-to_string, parse_u64-to_string, parse_u64-lt}
use agent_sandbox.Gmail.Threading.{max_of, after_last, extract_num, new_id}
use agent_sandbox.Gmail.Types.{GmailTwinService}
use agent_sandbox.Common.BTreeMap.{get, keys, BTreeMap, contains_key}
use native.Mathlib.Nat.{le_trans}
use text.Mathlib.TextLemmas.{nil-append, cons-append, append_assoc}
use Prim.Native.Char.{code}
use agent_sandbox.Common.{
  [], ◌∷◌, ℕ, all_chars, String, Bool, ◌≡◌, ◌<◌, List, not, u64_mod, ◌≤◌, true, contains, ◌==◌,
  arith, ◌<>◌, if◌then◌else◌, refl, to_string, Bool-cases, ltb, str_eq, inl, eq_iff, inr, false,
  Option-cases, leb, parse_u64, ok, ap, ◌∙◌,
}

max_of-le : (n : ℕ) (ids : List String) → n ≤ max_of n ids
max_of-le n [] = omega arith
max_of-le n (id ∷ ids) =
    ground (arith, max_of-le (if ltb n (extract_num id) then extract_num id else n) ids)

extract_num-le_max_of :
    (n : ℕ) (id : String) (ids : List String)
    → contains id ids ≡ true
    → extract_num id ≤ max_of n ids
extract_num-le_max_of n id [] h = absurd (ground arith)
extract_num-le_max_of n id (x ∷ ids) h =
    let m = if ltb n (extract_num x) then extract_num x else n in
    elim (Bool-cases (str_eq x id)) [
      | inl this ↦
          let same : x ≡ id = (eq_iff x id).0 this in
          let first : extract_num x ≤ m = ground arith in
          subst (λ y. extract_num y ≤ max_of m ids) same (le_trans first (max_of-le m ids))
      | inr other ↦ extract_num-le_max_of m id ids (ground arith)
    ]

contains-keys :
    {V : Type 0} (k : String) (m : BTreeMap V)
    → contains_key k m ≡ true
    → contains k (keys m) ≡ true
unfolding get keys
contains-keys k [] h = absurd (ground arith)
contains-keys k ((j, v) ∷ m) h = ground (arith, contains-keys k m)

abbrev is_not_bar : ℕ → Bool
is_not_bar c = not (c == 95)

after_last-none : (kept t : String) → all_chars is_not_bar t ≡ true → after_last kept t ≡ kept
unfolding all_chars
after_last-none kept String.[] h = refl
after_last-none kept (String.◌∷◌ c t) h = ground (arith, after_last-none kept t)

after_last-append :
    (kept p t : String)
    → all_chars is_not_bar t ≡ true
    → after_last kept (p <> String.◌∷◌ "_" t) ≡ t
after_last-append kept String.[] t h = rw nil-append (after_last-none t t h)
after_last-append kept (String.◌∷◌ c p) t h = rw cons-append (elim (Bool-cases (code c == 95)) [
  | inl bar ↦ rw bar (after_last-append (p <> String.◌∷◌ "_" t) p t h)
  | inr other ↦ rw other (after_last-append kept p t h)
])

extract_num_lem :
    (p : String) (n : ℕ) → n < u64_mod → extract_num (p <> String.◌∷◌ "_" (to_string n)) ≡ n
extract_num_lem p n small =
    let id = p <> String.◌∷◌ "_" (to_string n) in
    let cut : after_last id id ≡ to_string n =
      after_last-append id p (to_string n)
        (all_chars-to_string is_not_bar n (λ d low high. ground arith)) in
    rw cut (rw (parse_u64-to_string n small) refl)

-- The numbers in the identifiers of a map are below the number that is drawn next.
abbrev IsBelow : {V : Type 0} → ℕ → BTreeMap V → Type 0
IsBelow n m = (k : String) → contains_key k m ≡ true → extract_num k < n

below_lem :
    {V : Type 0} (b n top : ℕ) (m : BTreeMap V) → max_of b (keys m) ≤ top → top < n → IsBelow n m
below_lem b n top m h small k there =
    let num = extract_num-le_max_of b k (keys m) (contains-keys k m there) in omega (arith, num)

module _ (s : GmailTwinService) where
  abbrev from_messages : ℕ
  from_messages = max_of 0 (keys s.messages)

  abbrev from_threads : ℕ
  from_threads = max_of from_messages (keys s.threads)

  abbrev from_labels : ℕ
  from_labels = max_of from_threads (keys s.labels)

  abbrev largest : ℕ
  largest = max_of from_labels (keys s.attachments)

  abbrev pub IsFreshIn : String → Type 0
  IsFreshIn id =
      (contains_key id s.messages ≡ false)
      × (contains_key id s.threads ≡ false)
      × (contains_key id s.labels ≡ false)
      × (contains_key id s.attachments ≡ false)

  IsFreshIn-above : (n : ℕ) (id : String) → largest < n → extract_num id ≡ n → IsFreshIn id
  IsFreshIn-above n id above num =
      let threads = max_of-le from_messages (keys s.threads) in
      let labels = max_of-le from_threads (keys s.labels) in
      let attachments = max_of-le from_labels (keys s.attachments) in
      (
        absent s.messages
            (below_lem 0 n largest s.messages (omega (arith, threads, labels, attachments)) above),
        absent s.threads (
            below_lem from_messages n largest s.threads (omega (arith, labels, attachments)) above),
        absent s.labels (below_lem from_threads n largest s.labels attachments above),
        absent s.attachments (below_lem from_labels n largest s.attachments (omega arith) above),
      )
    where
      absent : {V : Type 0} (m : BTreeMap V) → IsBelow n m → contains_key id m ≡ false
      absent m below = elim (Bool-cases (contains_key id m)) [
        | inl there ↦ absurd (omega (arith, below id there, num))
        | inr away ↦ away
      ]

extract_num-lt : (id : String) → extract_num id < u64_mod
extract_num-lt id = elim (Option-cases (parse_u64 (after_last id id))) [
  | inl e ↦ rw e (omega arith)
  | inr (n, e) ↦ rw e (parse_u64-lt (after_last id id) n e)
]

max_of-lt : (n : ℕ) (ids : List String) → n < u64_mod → max_of n ids < u64_mod
max_of-lt n [] small = small
max_of-lt n (id ∷ ids) small =
    max_of-lt (if ltb n (extract_num id) then extract_num id else n) ids
      (ground (arith, extract_num-lt id))

bump_next_id-above :
    (s : GmailTwinService) → 0 < (bump_next_id s).next_id → largest s < (bump_next_id s).next_id
unfolding bump_next_id
bump_next_id-above s positive =
    let small : largest s < u64_mod = max_of-lt (from_labels s) (keys s.attachments) (
      max_of-lt (from_threads s) (keys s.labels) (
        max_of-lt (from_messages s) (keys s.threads)
          (max_of-lt 0 (keys s.messages) (omega arith)))) in
    elim (Bool-cases (leb s.next_id (largest s))) [
      | inl low ↦ rw low (omega (arith, rw low at positive))
      | inr high ↦ rw high (ground arith)
    ]

bump_next_id-lt : (s : GmailTwinService) → s.next_id < u64_mod → (bump_next_id s).next_id < u64_mod
unfolding bump_next_id
bump_next_id-lt s small = elim (Bool-cases (leb s.next_id (largest s))) [
  | inl low ↦ rw low (omega arith)
  | inr high ↦ rw high small
]

-- After the counter has been raised over all identifiers, as at the end of a seed, an identifier
-- that is drawn for a message, a thread, a label or an attachment stands in none of the four maps,
-- unless the counter has come to the end of its 64 bits and starts again at zero.
pub bump_next_id-fresh :
    (p : String) (s : GmailTwinService)
    → s.next_id < u64_mod
    → 0 < (bump_next_id s).next_id
    → (id : String) × ((new_id (p <> "_") (bump_next_id s)).0 ≡ ok id) × IsFreshIn s id
unfolding new_id
bump_next_id-fresh p s small positive =
    let n = (bump_next_id s).next_id in
    let above = bump_next_id-above s positive in
    (
      p <> String.◌∷◌ "_" (to_string n),
      ap ok (
          append_assoc p "_" (to_string n)
          ∙ ap (λ t. p <> t)
              (cons-append "_" String.[] (to_string n)
                ∙ ap (String.◌∷◌ "_") (nil-append (to_string n)))),
      IsFreshIn-above s n (p <> String.◌∷◌ "_" (to_string n)) above
          (extract_num_lem p n (bump_next_id-lt s small)),
    )
