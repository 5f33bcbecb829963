-- ===== src/Gmail/Listing/Order.antt =====
-- The order of a listing.
use mathlib.Core.List.{Perm}
use agent_sandbox.Common.Sorting.Laws.{IsOrdered, sort_by-IsOrdered, sort_by-perm, filter-sort_by}
use agent_sandbox.Gmail.Listing.{matching_messages, is_newer, selected_messages}
use agent_sandbox.Gmail.Types.{GmailTwinService, GmailMessage}
use agent_sandbox.Common.{
  [], ◌∷◌, String, List, Option, ℕ, filter, ◌==◌, ◌≡◌, ◌≤◌, arith, All, All-mono,
}

-- No message stands before one with a later date.
abbrev pub IsNewestFirst : List GmailMessage → Type 0
IsNewestFirst [] = Unit
IsNewestFirst (m ∷ ms) = All (λ n. n.internal_date ≤ m.internal_date) ms × IsNewestFirst ms

IsOrdered-IsNewestFirst : (ms : List GmailMessage) → IsOrdered is_newer ms → IsNewestFirst ms
IsOrdered-IsNewestFirst [] h = tt
IsOrdered-IsNewestFirst (m ∷ ms) (here, there) =
    (All-mono ms (λ n e. ground arith) here, IsOrdered-IsNewestFirst ms there)

module _ (to_uppercase to_lowercase : String → String) (label_ids : List String) (q : Option String)
    (s : GmailTwinService) where
  -- The messages of a listing are those with the labels that the query matches, rearranged so that
  -- the dates never increase; messages of one date keep the order of their identifiers.
  pub matching_messages-IsOrdered :
      IsNewestFirst (matching_messages to_uppercase to_lowercase label_ids q s)
      × Perm
          (matching_messages to_uppercase to_lowercase label_ids q s)
          (selected_messages to_uppercase to_lowercase label_ids q s)
      × ((date : ℕ)
          → filter
              (λ m. m.internal_date == date)
              (matching_messages to_uppercase to_lowercase label_ids q s)
            ≡ filter
                (λ m. m.internal_date == date)
                (selected_messages to_uppercase to_lowercase label_ids q s))
  unfolding matching_messages
  matching_messages-IsOrdered =
      let ms = selected_messages to_uppercase to_lowercase label_ids q s in
      (
        IsOrdered-IsNewestFirst _
            (sort_by-IsOrdered is_newer (λ m n h. ground arith) (λ l m n h k. ground arith) ms),
        sort_by-perm is_newer ms,
        λ date. filter-sort_by is_newer (λ m. m.internal_date == date) (λ m n h k. ground arith) ms,
      )
