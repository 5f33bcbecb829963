-- ===== src/Gmail/Listing.antt =====
-- `handle`, the two listings with their pages.
pub mod Order
pub mod Pages
use mathlib.Core.Option
use agent_sandbox.Common.Sorting.{sort_by}
use agent_sandbox.Common.Slices.{drop}
use agent_sandbox.Gmail.Search.{GmailQueryFilter, message_matches_query, parse_gmail_query}
use agent_sandbox.Common.BTreeMap.{BTreeMap, keys, insert, get, values}
use agent_sandbox.Gmail.Types.{
  GmailThread, GmailMessage, GmailTwinService, Gmail, ThreadSummary, GmailResponse,
}
use agent_sandbox.Common.{
  [], none, some, Option, List, String, ℕ, ◌<>◌, Bool, unwrap_or, if◌then◌else◌, take, to_string,
  ltb, all, filter, strip_prefix, ◌∷◌, leb, ◌+◌, parse_u64, ok, contains, length, map, ◌%◌, ◌^◌,
}

-- A `page_token` is the offset of the page; what is not one counts as the first page.
abbrev pub and_then {ℓ} : {A B : Type ℓ} → Option A → (A → Option B) → Option B
and_then none f = none
and_then (some a) f = f a

unfoldable pub page_offset : Option String → ℕ
page_offset token =
    unwrap_or (and_then (and_then token (λ t. strip_prefix t "offset:")) parse_u64) 0

unfoldable pub page_limit : ℕ → ℕ
page_limit max_results =
    let n = if ltb 500 max_results then 500 else max_results in if leb 1 n then n else 1

abbrev pub page_token_of : ℕ → String
page_token_of n = "offset:" <> to_string n

unfoldable pub next_token : ℕ → ℕ → ℕ → Option String
next_token offset shown total =
    if ltb (offset + shown) total then some (page_token_of (offset + shown)) else none

-- `skip(offset).take(limit)`
unfoldable pub page_of : {A : Type 0} → ℕ → Option String → List A → List A
page_of max_results token xs = take (page_limit max_results) (drop (page_offset token) xs)

abbrev pub has_all : List String → GmailMessage → Bool
has_all label_ids m = all (λ l. contains l m.label_ids) label_ids

abbrev pub is_newer : GmailMessage → GmailMessage → Bool
is_newer m n = ltb n.internal_date m.internal_date

abbrev pub keep_matching :
    (String → String) → Option GmailQueryFilter → List GmailMessage → List GmailMessage
keep_matching to_lowercase none ms = ms
keep_matching to_lowercase (some f) ms = filter (λ m. message_matches_query to_lowercase m f) ms

abbrev pub message_row : GmailMessage → String × String
message_row m = (m.id, m.thread_id)

module _ (to_uppercase to_lowercase : String → String) where
  -- The messages that a listing shows on its pages. A message has all labels of an empty list.
  abbrev pub selected_messages : List String → Option String → GmailTwinService → List GmailMessage
  selected_messages label_ids q s =
      keep_matching to_lowercase (Option.map (parse_gmail_query to_uppercase to_lowercase) q)
        (filter (has_all label_ids) (values s.messages))

  unfoldable pub matching_messages :
      List String → Option String → GmailTwinService → List GmailMessage
  matching_messages label_ids q s = sort_by is_newer (selected_messages label_ids q s)

  unfoldable pub list_messages :
      List String → ℕ → Option String → Option String → Gmail GmailResponse
  list_messages label_ids max_results page_token q s =
      let ms = matching_messages label_ids q s in
      let page = page_of max_results page_token ms in
      (
        ok (
            GmailResponse.message_list (map message_row page)
              (next_token (page_offset page_token) (length page) (length ms)) (length ms % 2 ^ 32)),
        s,
      )

-- The threads of the messages with the labels, in a `BTreeSet`.
unfoldable pub thread_set : List GmailMessage → BTreeMap (Unit {0}) → BTreeMap (Unit {0})
thread_set [] tids = tids
thread_set (m ∷ ms) tids = thread_set ms (insert m.thread_id tt tids)

abbrev pub listed_threads : List String → GmailTwinService → List String
listed_threads [] s = keys s.threads
listed_threads (l ∷ ls) s = keys (thread_set (filter (has_all (l ∷ ls)) (values s.messages)) [])

abbrev pub thread_history : GmailTwinService → String → ℕ
thread_history s id = unwrap_or (Option.map (λ t. t.history_id) (get id s.threads)) 0

unfoldable pub matching_threads : List String → GmailTwinService → List String
matching_threads label_ids s =
    sort_by (λ a b. ltb (thread_history s b) (thread_history s a)) (listed_threads label_ids s)

abbrev pub summary : GmailThread → ThreadSummary
summary t = record { id = t.id; snippet = t.snippet; history_id = t.history_id }

-- `filter_map`: an identifier without a thread is left out.
unfoldable pub summaries : GmailTwinService → List String → List ThreadSummary
summaries s [] = []
summaries s (id ∷ ids) =
    let rest = summaries s ids in
    elim (get id s.threads) [ none ↦ rest | some t ↦ summary t ∷ rest ]

unfoldable pub list_threads : List String → ℕ → Option String → Gmail GmailResponse
list_threads label_ids max_results page_token s =
    let ids = matching_threads label_ids s in
    let page = summaries s (page_of max_results page_token ids) in
    (
      ok (
          GmailResponse.thread_list page
            (next_token (page_offset page_token) (length page) (length ids)) (length ids % 2 ^ 32)),
      s,
    )
