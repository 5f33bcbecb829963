-- ===== src/Gmail/Examples.antt =====
-- The theorems about the Gmail twin at concrete states.
use agent_sandbox.Gmail.Samples.{
  note, talk, no_decoder, same_case, draft, mailbox, mailbox-IsMailbox,
}
use agent_sandbox.Gmail.Labelling.Deleted.{delete_label_cases}
use agent_sandbox.Gmail.Listing.Order.{matching_messages-IsOrdered, IsNewestFirst}
use agent_sandbox.Gmail.Mailbox.Emptying.{delete_thread-removes}
use agent_sandbox.Gmail.Fresh.{IsFreshIn, bump_next_id-fresh}
use agent_sandbox.Gmail.Search.Calendar.{calendar_days}
use agent_sandbox.Gmail.Labelling.Sets.{change_messages, change_message, Change}
use agent_sandbox.Gmail.Labelling.Views.{
  view, changed, change_message-view, is_in, change_messages-view,
}
use agent_sandbox.Common.Sorting.{sort_by}
use agent_sandbox.Gmail.Threads.{delete_thread}
use agent_sandbox.Gmail.Search.Dates.{date_text, parse_date_to_ms_lem}
use agent_sandbox.Gmail.Labels.{delete_label, is_user}
use agent_sandbox.Gmail.Played.{play, seed-play-IsMailbox}
use agent_sandbox.Gmail.Json.{Json}
use agent_sandbox.Gmail.Listing.{
  matching_messages, list_messages, selected_messages, page_offset, message_row,
}
use agent_sandbox.Gmail.Search.{parse_date_to_ms}
use agent_sandbox.Gmail.Sending.{IsReadable, send_message-get}
use agent_sandbox.Gmail.Listing.Pages.{rows_of, follow, follow-list_messages, list_messages-length}
use mathlib.Core.List.{Perm}
use agent_sandbox.Gmail.Refusals.{handle-Left, Left}
use agent_sandbox.Gmail.Threading.{bump_next_id, in_thread}
use agent_sandbox.Gmail.Scenario.{seed_from_scenario}
use agent_sandbox.Gmail.Mailbox.Handling.{handle-IsMailbox}
use agent_sandbox.Gmail.Threading.{new_id}
use agent_sandbox.Gmail.Handle.{handle}
use agent_sandbox.Gmail.Mailbox.Default.{default_mailbox-IsMailbox}
use agent_sandbox.Common.BTreeMap.{insert, values, keys, get}
use agent_sandbox.Gmail.Messages.{send_message, get_message}
use agent_sandbox.Gmail.Mailbox.{IsMailbox}
use agent_sandbox.Gmail.Types.{
  default_mailbox, GmailRequest, insert_system, GmailMessage, GmailResponse, full, system_label,
}
use agent_sandbox.Common.{
  [], ◌∷◌, none, some, String, ◌≡◌, err, ok, refl, parse_u64, arith, if◌then◌else◌, length,
  operation, ◌<>◌, map, ◌≤◌, ◌*◌, true, str_eq, ℕ, ◌&&◌, filter, ◌<◌, not, ◌==◌, false, to_string,
  inr, zeros,
}

handle-IsMailbox_example :
    IsMailbox
      (handle no_decoder same_case same_case (GmailRequest.trash_thread "thread_1") mailbox).1
handle-IsMailbox_example =
    handle-IsMailbox no_decoder same_case same_case (GmailRequest.trash_thread "thread_1") mailbox
      mailbox-IsMailbox

delete_thread-removes_example :
    let r = delete_thread "thread_1" mailbox in
    (r.0 ≡ ok GmailResponse.deleted)
    × ((k : String) (m : GmailMessage)
        → get k mailbox.messages ≡ some m
        → get k r.1.messages ≡ (if in_thread "thread_1" m then none else some m))
    × ((k : String) → get k mailbox.messages ≡ none → get k r.1.messages ≡ none)
    × ((k : String)
        → get k r.1.threads ≡ (if str_eq "thread_1" k then none else get k mailbox.threads))
    × (r.1.labels ≡ mailbox.labels)
unfolding get
delete_thread-removes_example = delete_thread-removes "thread_1" talk mailbox mailbox-IsMailbox refl

change_message-view_example :
    view (change_message Change.trash "msg_2" mailbox).1 "msg_2" "TRASH"
    ≡ changed Change.trash (str_eq "msg_2") (view mailbox) "msg_2" "TRASH"
unfolding get
change_message-view_example =
    change_message-view Change.trash "msg_2" note mailbox refl "msg_2" "TRASH"

change_messages-view_example :
    view
      (change_messages (Change.modify ("x" ∷ []) ("SENT" ∷ [])) "thread_1" mailbox).1
      "msg_2"
      "SENT"
    ≡ changed
        (Change.modify ("x" ∷ []) ("SENT" ∷ []))
        (λ j. is_in "thread_1" (get j mailbox.messages))
        (view mailbox)
        "msg_2"
        "SENT"
unfolding get
change_messages-view_example =
    change_messages-view (Change.modify ("x" ∷ []) ("SENT" ∷ [])) "thread_1" talk mailbox refl
      "msg_2" "SENT"

delete_label_cases_example :
    let r = delete_label "INBOX" mailbox in
    (is_user (system_label "INBOX") ≡ true
      → (r.0 ≡ ok GmailResponse.deleted)
        × ((k : String)
            → get k r.1.labels ≡ (if str_eq "INBOX" k then none else get k mailbox.labels))
        × ((k j : String) → view r.1 k j ≡ (view mailbox k j && not (str_eq "INBOX" j))))
    × (is_user (system_label "INBOX") ≡ false
        → r ≡ (err (operation "cannot delete system label"), mailbox))
delete_label_cases_example =
    delete_label_cases "INBOX" (system_label "INBOX") mailbox (mailbox-IsMailbox.kept "INBOX" refl)

matching_messages-IsOrdered_example :
    let ms = matching_messages same_case same_case ("SENT" ∷ []) none mailbox in
    let selected = selected_messages same_case same_case ("SENT" ∷ []) none mailbox in
    IsNewestFirst ms
    × Perm ms selected
    × ((date : ℕ)
        → filter (λ m. m.internal_date == date) ms ≡ filter (λ m. m.internal_date == date) selected)
matching_messages-IsOrdered_example =
    matching_messages-IsOrdered same_case same_case ("SENT" ∷ []) none mailbox

follow-list_messages_example :
    follow same_case same_case [] 1 none mailbox 2 none
    ≡ some (map message_row (matching_messages same_case same_case [] none mailbox))
unfolding matching_messages sort_by values
follow-list_messages_example =
    follow-list_messages same_case same_case [] 1 none mailbox 2 (omega arith) (omega arith)

list_messages-length_example :
    let rows = rows_of (list_messages same_case same_case [] 1 none none mailbox).0 in
    (length rows ≤ 500)
    × (1 ≤ 1 → length rows ≤ 1)
    × (page_offset none < length (matching_messages same_case same_case [] none mailbox)
        → 1 ≤ length rows)
list_messages-length_example = list_messages-length same_case same_case [] 1 none mailbox none

-- `2024-02-29`
abbrev leap_day_text : String
leap_day_text =
    date_text "-" (record { padding = 0; value = 2024 }) (record { padding = 1; value = 2 })
      (record { padding = 0; value = 29 })

parse_date_to_ms_lem_example :
    parse_date_to_ms leap_day_text ≡ some (calendar_days 2024 2 29 * 86400000)
parse_date_to_ms_lem_example =
    parse_date_to_ms_lem "-" (record { padding = 0; value = 2024 })
      (record { padding = 1; value = 2 }) (record { padding = 0; value = 29 }) (inr refl) refl
      (omega arith)

leap_day_text_run : leap_day_text ≡ "2024-02-29"
unfolding to_string zeros
leap_day_text_run = refl

send_message-get_example :
    (a : GmailResponse) × ((send_message "alice" draft default_mailbox).0 ≡ ok a)
    × IsReadable draft a (send_message "alice" draft default_mailbox).1
unfolding default_mailbox
send_message-get_example = send_message-get "alice" draft default_mailbox (omega arith)

handle-Left_example :
    Left
      (GmailRequest.get_message "msg_9" full)
      mailbox
      (handle no_decoder same_case same_case (GmailRequest.get_message "msg_9" full) mailbox).1
unfolding handle get_message get
handle-Left_example =
    handle-Left no_decoder same_case same_case (GmailRequest.get_message "msg_9" full)
      (operation "message not found: msg_9") mailbox refl

-- Values that are texts, with every field themselves.
abbrev texts : Json String
texts = record {
  field = λ v key. some v;
  as_str = λ v. some v;
  as_u64 = λ v. none;
  as_strings = λ v. some (v ∷ []);
  as_labels = λ v. ok (record { id = v; name = v; label_type = "user" } ∷ []);
  as_messages = λ v. ok [];
  to_value = λ a. "";
}

seed-play-IsMailbox_example : IsMailbox (
    play texts no_decoder same_case same_case
      (("create_label", "alice") ∷ [])
      (seed_from_scenario texts no_decoder same_case same_case "work" default_mailbox).1)
seed-play-IsMailbox_example =
    seed-play-IsMailbox texts no_decoder same_case same_case "work" (("create_label", "alice") ∷ [])
      default_mailbox default_mailbox-IsMailbox

bump_next_id-fresh_example :
    (id : String) × ((new_id ("msg" <> "_") (bump_next_id mailbox)).0 ≡ ok id)
    × IsFreshIn mailbox id
unfolding bump_next_id keys insert_system insert parse_u64
bump_next_id-fresh_example = bump_next_id-fresh "msg" mailbox (omega arith) (omega arith)
