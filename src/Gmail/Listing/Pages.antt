-- ===== src/Gmail/Listing/Pages.antt =====
-- The pages of a listing: their lengths, and the whole listing from the tokens that lead on.
use mathlib.Core.List.{map-append}
use agent_sandbox.Gmail.Types.{GmailTwinService, GmailMessage, GmailResponse}
use agent_sandbox.Common.Text.Decimal.{parse_u64-to_string}
use agent_sandbox.Common.Slices.{
  drop, length-take_le, take_cases, length-drop, take_all, drop-drop, take-append-drop, length-map,
}
use agent_sandbox.Gmail.Listing.{
  page_of, page_offset, page_limit, page_token_of, list_messages, next_token, matching_messages,
  message_row,
}
use agent_sandbox.Common.{
  some, ℕ, ◌<◌, Option, ◌≤◌, u64_mod, String, arith, List, length, ◌≡◌, strip_prefix-append,
  to_string, inl, refl, inr, [], Result, TwinError, none, suc, ◌++◌, map, ok, take, Bool-cases, ltb,
  ◌+◌, false, true, zero, ◌∙◌, sym, ap,
}

page_limit_lem : (n : ℕ) → (1 ≤ page_limit n) × (page_limit n ≤ 500)
unfolding page_limit
page_limit_lem n = (ground arith, ground arith)

-- There is always something to show before the end.
length-slice :
    {A : Type 0} (max offset : ℕ) (xs : List A)
    → offset < length xs
    → 1 ≤ length (take (page_limit max) (drop offset xs))
length-slice max offset xs more = elim (take_cases (page_limit max) (drop offset xs)) [
  | inl full ↦ omega (arith, full, page_limit_lem max)
  | inr (whole, nothing) ↦ rw whole (omega (arith, length-drop offset xs))
]

page_offset-page_token_of : (n : ℕ) → n < u64_mod → page_offset (some (page_token_of n)) ≡ n
unfolding page_offset
page_offset-page_token_of n h =
    rw (strip_prefix-append "offset:" (to_string n)) (rw (parse_u64-to_string n h) refl)

-- What an answer shows, and the token that it gives for more.
abbrev pub rows_of : Result TwinError GmailResponse → List (String × String)
rows_of (ok (GmailResponse.message_list rows token total)) = rows
rows_of _ = []

abbrev pub token_of : Result TwinError GmailResponse → Option String
token_of (ok (GmailResponse.message_list rows token total)) = token
token_of _ = none

-- The rows of an answer with those that follow, if the asking has come to an end.
abbrev pub before_rest :
    List (String × String) → Option (List (String × String)) → Option (List (String × String))
before_rest rows none = none
before_rest rows (some more) = some (rows ++ more)

-- An answer without a token is the last.
abbrev pub with_more :
    List (String × String)
    → Option String
    → (String → Option (List (String × String)))
    → Option (List (String × String))
with_more rows none more = some rows
with_more rows (some token) more = before_rest rows (more token)

module _ (to_uppercase to_lowercase : String → String) (label_ids : List String) (max : ℕ)
    (q : Option String) (s : GmailTwinService) where
  -- The pages that a client gets who asks again with every token, one after another, until an answer
  -- has none; nothing if that takes more requests than there is fuel.
  unfoldable pub follow : ℕ → Option String → Option (List (String × String))
  follow zero token = none
  follow (suc fuel) token =
      let answer = (list_messages to_uppercase to_lowercase label_ids max token q s).0 in
      with_more (rows_of answer) (token_of answer) (λ t. follow fuel (some t))

  abbrev matching : List GmailMessage
  matching = matching_messages to_uppercase to_lowercase label_ids q s

  abbrev page : ℕ → List GmailMessage
  page offset = take (page_limit max) (drop offset matching)

  -- A page that is not the last is full.
  page-rest :
      (offset : ℕ)
      → ltb (offset + length (page offset)) (length matching) ≡ true
      → page offset ++ drop (offset + length (page offset)) matching ≡ drop offset matching
  page-rest offset more = elim (take_cases (page_limit max) (drop offset matching)) [
    | inl full ↦ rw full (
        rw (sym (drop-drop offset (page_limit max) matching))
          (take-append-drop (page_limit max) (drop offset matching)))
    | inr (whole, nothing) ↦ absurd (ground (arith, ap length whole, length-drop offset matching))
  ]

  last_page :
      (offset : ℕ)
      → ltb (offset + length (page offset)) (length matching) ≡ false
      → page offset ≡ drop offset matching
  last_page offset last = elim (take_cases (page_limit max) (drop offset matching)) [
    | inl full ↦
        take_all (page_limit max) (drop offset matching)
          (ground (arith, full, length-drop offset matching))
    | inr (whole, nothing) ↦ whole
  ]

  follow-drop :
      (fuel offset : ℕ) (token : Option String)
      → page_offset token ≡ offset
      → length matching < u64_mod
      → length (drop offset matching) < fuel
      → follow fuel token ≡ some (map message_row (drop offset matching))
  unfolding follow list_messages next_token page_of
  follow-drop zero offset token at small enough = absurd (omega arith)
  follow-drop (suc fuel) offset token at small enough =
      rw at (elim (Bool-cases (ltb (offset + length (page offset)) (length matching))) [
        | inl more ↦ rw more (
            ap (before_rest (map message_row (page offset))) (
              follow-drop fuel n (some (page_token_of n))
                (page_offset-page_token_of n (ground arith)) small
                (ground (
                  arith,
                  length-slice max offset matching,
                  length-drop n matching,
                  length-drop offset matching,
                )))
            ∙ ap some (
                sym (map-append message_row (page offset) (drop n matching))
                ∙ ap (map message_row) (page-rest offset more)))
        | inr last ↦ rw last (ap (λ ms. some (map message_row ms)) (last_page offset last))
      ])
    where
      n : ℕ
      n = offset + length (page offset)

  -- Whoever asks again with every token that an answer gives comes to an answer without a token, in
  -- no more requests than one more than there are messages; the pages until then are all messages of
  -- the listing in its order, each of them once, if they are fewer than `u64` counts.
  pub follow-list_messages :
      (fuel : ℕ)
      → length matching < u64_mod
      → length matching < fuel
      → follow fuel none ≡ some (map message_row matching)
  unfolding page_offset drop
  follow-list_messages fuel small enough = follow-drop fuel 0 none refl small enough

  -- An answer shows at most 500 messages and no more than were asked for, if that was at least one;
  -- it shows one at least where the token stands for a place before the end.
  pub list_messages-length :
      (token : Option String)
      → (length (rows_of (list_messages to_uppercase to_lowercase label_ids max token q s).0) ≤ 500)
        × (1 ≤ max
            → length (rows_of (list_messages to_uppercase to_lowercase label_ids max token q s).0)
              ≤ max)
        × (page_offset token < length matching
            → 1
              ≤ length
                  (rows_of (list_messages to_uppercase to_lowercase label_ids max token q s).0))
  unfolding list_messages page_of page_limit
  list_messages-length token =
      let rest = drop (page_offset token) matching in
      let short = length-take_le (page_limit max) rest in
      rw (length-map message_row (take (page_limit max) rest)) (
        omega (arith, page_limit_lem max, short),
        (λ asked. ground (arith, short)),
        length-slice max (page_offset token) matching,
      )
