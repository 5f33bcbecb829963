-- ===== src/Gmail/Threading.antt =====
-- The helpers of the service: identifiers, history, snippets, sizes and threads.
use Prim.Native.Char.{code}
use agent_sandbox.Common.Text.Scan.{byte_length, trim_start_matches, take_chars}
use agent_sandbox.Common.BTreeMap.{update, insert, contains_key, keys, values}
use agent_sandbox.Gmail.Types.{GmailTwinService, Gmail, GmailThread, GmailMessage}
use agent_sandbox.Common.{
  [], none, some, List, Option, ℕ, String, ok, pure, Bool, find, if◌then◌else◌, filter, parse_u64,
  ◌>>=◌, ◌∷◌, ltb, str_eq, ◌<>◌, ◌+◌, leb, true, true, ◌>>◌, length, to_string, modify, ◌%◌, ◌&&◌,
  false, false, not, map, u64_mod, ◌==◌, unwrap_or, contains,
}

-- A fresh identifier with a prefix; the four kinds share the counter.
unfoldable pub new_id : String → Gmail String
new_id prefix s =
    (ok (prefix <> to_string s.next_id), record s { next_id = (s.next_id + 1) % u64_mod })

abbrev pub new_message_id : Gmail String
new_message_id = new_id "msg_"

abbrev pub new_thread_id : Gmail String
new_thread_id = new_id "thread_"

abbrev pub new_label_id : Gmail String
new_label_id = new_id "Label_"

abbrev pub new_attachment_id : Gmail String
new_attachment_id = new_id "att_"

unfoldable pub next_history : Gmail ℕ
next_history s =
    (ok s.next_history_id, record s { next_history_id = (s.next_history_id + 1) % u64_mod })

-- What follows the last `_`, or the whole text.
abbrev pub after_last : String → String → String
after_last kept String.[] = kept
after_last kept (String.◌∷◌ c s) = if code c == 95 then after_last s s else after_last kept s

abbrev pub extract_num : String → ℕ
extract_num id = unwrap_or (parse_u64 (after_last id id)) 0

abbrev pub max_of : ℕ → List String → ℕ
max_of n [] = n
max_of n (id ∷ ids) = max_of (if ltb n (extract_num id) then extract_num id else n) ids

unfoldable pub bump_next_id : GmailTwinService → GmailTwinService
bump_next_id s =
    let largest =
      max_of (max_of (max_of (max_of 0 (keys s.messages)) (keys s.threads)) (keys s.labels))
        (keys s.attachments) in
    record s { next_id = if leb s.next_id largest then (largest + 1) % u64_mod else s.next_id }

-- The test is on bytes, the cut on characters.
unfoldable pub make_snippet : String → String
make_snippet body =
    if ltb 100 (byte_length body) then take_chars 100 body <> "..." else take_chars 100 body

abbrev pub sum_of : {A : Type 0} → (A → ℕ) → List A → ℕ
sum_of f [] = 0
sum_of f (x ∷ xs) = f x + sum_of f xs

abbrev pub text_size : Option String → ℕ
text_size none = 0
text_size (some t) = byte_length t

unfoldable pub estimate_size : GmailMessage → ℕ
estimate_size m =
    (byte_length m.from
      + sum_of byte_length m.to
      + byte_length m.subject
      + text_size m.body_text
      + text_size m.body_html
      + sum_of (λ a. a.size) m.attachments)
    % u64_mod

-- The subject without the marks of replies and forwards, in the order in which they are cut.
unfoldable pub normalize : String → String
normalize subject =
    trim_start_matches
      (trim_start_matches
        (trim_start_matches (trim_start_matches (trim_start_matches subject "Re: ") "RE: ") "re: ")
        "Fwd: ")
      "FWD: "

abbrev pub is_empty_text : String → Bool
is_empty_text String.[] = true
is_empty_text (String.◌∷◌ c s) = false

abbrev pub same_subject : String → GmailMessage → Bool
same_subject subject m =
    str_eq (normalize m.subject) (normalize subject) && not (is_empty_text (normalize subject))

abbrev pub new_thread : String → ℕ → GmailThread
new_thread id hid = record { id = id; history_id = hid; snippet = "" }

abbrev pub put_thread : GmailThread → GmailTwinService → GmailTwinService
put_thread t s = record s { threads = insert t.id t s.threads }

unfoldable pub create_thread : Gmail String
create_thread = do
  tid ← new_thread_id
  hid ← next_history
  modify (put_thread (new_thread tid hid))
  pure tid

abbrev pub join_thread : Option GmailMessage → Gmail String
join_thread none = create_thread
join_thread (some m) = pure m.thread_id

unfoldable pub thread_by_subject : String → Gmail String
thread_by_subject subject s = join_thread (find (same_subject subject) (values s.messages)) s

abbrev pub use_thread : String → String → Bool → Gmail String
use_thread tid subject true = pure tid
use_thread tid subject false = thread_by_subject subject

unfoldable pub find_or_create_thread : Option String → String → Gmail String
find_or_create_thread none subject s = thread_by_subject subject s
find_or_create_thread (some tid) subject s = use_thread tid subject (contains_key tid s.threads) s

abbrev pub in_thread : String → GmailMessage → Bool
in_thread thread_id m = str_eq m.thread_id thread_id

-- `max_by_key`: of several latest messages the last.
abbrev pub later : Option GmailMessage → GmailMessage → Option GmailMessage
later none m = some m
later (some best) m = if ltb m.internal_date best.internal_date then some best else some m

abbrev pub latest : Option GmailMessage → List GmailMessage → Option GmailMessage
latest best [] = best
latest best (m ∷ ms) = latest (later best m) ms

abbrev pub with_latest : GmailMessage → GmailThread → GmailThread
with_latest m t = record t { snippet = m.snippet; history_id = m.history_id }

abbrev pub show_latest : String → Option GmailMessage → GmailTwinService → GmailTwinService
show_latest thread_id none s = s
show_latest thread_id (some m) s = record s { threads = update thread_id (with_latest m) s.threads }

unfoldable pub update_thread_snippet : String → GmailTwinService → GmailTwinService
update_thread_snippet thread_id s =
    show_latest thread_id (latest none (filter (in_thread thread_id) (values s.messages))) s

-- The messages with a label, and the unread ones among them.
unfoldable pub label_message_count : String → GmailTwinService → ℕ × ℕ
label_message_count label_id s =
    let labelled = filter (λ m. contains label_id m.label_ids) (values s.messages) in
    (length labelled, length (filter (λ m. contains "UNREAD" m.label_ids) labelled))

-- The members of a `BTreeSet`, in some order.
abbrev pub distinct : List String → List String
distinct [] = []
distinct (x ∷ xs) = let rest = distinct xs in if contains x rest then rest else x ∷ rest

unfoldable pub label_thread_count : String → GmailTwinService → ℕ × ℕ
label_thread_count label_id s =
    let labelled = filter (λ m. contains label_id m.label_ids) (values s.messages) in
    (
      length (distinct (map (λ m. m.thread_id) labelled)),
      length (
          distinct (map (λ m. m.thread_id) (filter (λ m. contains "UNREAD" m.label_ids) labelled))),
    )

abbrev pub current_timestamp_ms : ℕ
current_timestamp_ms = 1700000000000
