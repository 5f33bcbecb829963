-- ===== src/Gmail/Runs.antt =====
-- Runs of the Gmail twin.
use agent_sandbox.Gmail.Samples.{no_decoder, draft}
use agent_sandbox.Common.Text.Split.{split}
use agent_sandbox.Gmail.Search.{parse_date_to_ms, parts_to_ms, date_to_ms, days_from_civil}
use agent_sandbox.Common.Text.Scan.{take_chars, byte_length}
use agent_sandbox.Gmail.Threading.{
  find_or_create_thread, thread_by_subject, create_thread, new_id, next_history,
  update_thread_snippet, estimate_size, make_snippet,
}
use agent_sandbox.Common.BTreeMap.{insert, update, values, get}
use agent_sandbox.Gmail.Messages.{
  send_message, store_attachments, file_message, insert_message, store_seed_attachments,
}
use agent_sandbox.Gmail.Types.{GmailTwinService, default_mailbox, SeedMessage}
use agent_sandbox.Common.{
  [], ◌∷◌, none, some, String, ◌≡◌, to_string, refl, parse_u64, ◌<>◌, map, ℕ, List, suc, Option,
  zero,
}

parse_date_run : parse_date_to_ms "2024/03/01" ≡ some 1709251200000
unfolding parse_date_to_ms split parts_to_ms date_to_ms parse_u64 days_from_civil
parse_date_run = refl

abbrev seeded : SeedMessage
seeded = record {
  id = "msg_2";
  thread_id = "";
  from = "eve";
  to = [];
  cc = none;
  bcc = none;
  subject = "plans";
  body = some "keep this";
  body_html = none;
  label_ids = [];
  timestamp_ms = some 5;
  attachments = [];
}

abbrev subjects : GmailTwinService → List (Option String)
subjects s = map (λ m. m.body_text) (values s.messages)

-- A message that is inserted with its own identifier does not raise the counter, so that the next
-- message sent may take the same identifier and overwrite it.
insert_then_send :
    let s = (insert_message no_decoder seeded default_mailbox).1 in
    (subjects s ≡ some "keep this" ∷ [])
    × (subjects (send_message "alice" (record draft { thread_id = some "thread_1" }) s).1
        ≡ some "hello" ∷ [])
unfolding insert_message store_seed_attachments send_message find_or_create_thread thread_by_subject
    create_thread new_id next_history store_attachments file_message update_thread_snippet
    estimate_size make_snippet take_chars byte_length to_string insert update values default_mailbox
    get
insert_then_send = (refl, refl)

-- The length is counted in bytes and the cut made in characters: 34 characters of three bytes each are
-- all kept, and get the mark of a cut.
abbrev repeat : ℕ → String → String
repeat zero t = ""
repeat (suc n) t = t <> repeat n t

make_snippet_run : make_snippet (repeat 34 "€") ≡ repeat 34 "€" <> "..."
unfolding make_snippet byte_length take_chars
make_snippet_run = refl
