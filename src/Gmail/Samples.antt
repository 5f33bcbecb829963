-- ===== src/Gmail/Samples.antt =====
-- A mailbox of the Gmail twin with one message, for the runs and for the theorems at concrete states.
use agent_sandbox.Common.Text.Scan.{take_chars, byte_length}
use agent_sandbox.Gmail.Threading.{
  find_or_create_thread, thread_by_subject, create_thread, new_id, next_history,
  update_thread_snippet, estimate_size, make_snippet,
}
use mathlib.Core.Path.{subst}
use agent_sandbox.Gmail.Handle.{handle}
use agent_sandbox.Gmail.Mailbox.Default.{default_mailbox-IsMailbox}
use agent_sandbox.Gmail.Mailbox.Handling.{handle_lem}
use agent_sandbox.Common.Post.{state-Post}
use agent_sandbox.Common.BTreeMap.{insert, update, values}
use agent_sandbox.Gmail.Messages.{send_message, store_attachments, file_message}
use agent_sandbox.Gmail.Mailbox.{IsMailbox}
use agent_sandbox.Gmail.Types.{
  GmailTwinService, Draft, default_mailbox, GmailRequest, GmailThread, insert_system, GmailMessage,
  system_labels, GmailResponse,
}
use agent_sandbox.Common.{[], ◌∷◌, none, some, String, Result, Bytes, ◌≡◌, err, to_string, ok, refl}

-- A decoder that reads no text, and letters that have no cases: enough for the runs below.
abbrev pub no_decoder : String → Result String Bytes
no_decoder t = err "not base64"

abbrev pub same_case : String → String
same_case t = t

abbrev pub draft : Draft
draft = record {
  to = "bob" ∷ [];
  cc = [];
  bcc = [];
  subject = "Re: plans";
  body = "hello";
  thread_id = none;
  attachments = ("a.txt", "text/plain", 104 ∷ 105 ∷ []) ∷ [];
}

abbrev pub note : GmailMessage
note = record {
  id = "msg_2";
  thread_id = "thread_1";
  label_ids = "SENT" ∷ [];
  from = "alice@twin.local";
  to = "bob" ∷ [];
  cc = [];
  bcc = [];
  subject = "Re: plans";
  body_text = some "hello";
  body_html = none;
  snippet = "hello";
  internal_date = 1700000000002;
  size_estimate = 35;
  attachments =
      record { attachment_id = "att_3"; filename = "a.txt"; mime_type = "text/plain"; size = 2 }
      ∷ [];
  history_id = 2;
}

abbrev pub talk : GmailThread
talk = record { id = "thread_1"; history_id = 2; snippet = "hello" }

abbrev pub mailbox : GmailTwinService
mailbox = record {
  messages = ("msg_2", note) ∷ [];
  threads = ("thread_1", talk) ∷ [];
  labels = insert_system system_labels [];
  attachments = ("att_3", 104 ∷ 105 ∷ []) ∷ [];
  next_id = 4;
  next_history_id = 3;
}

mailbox_made :
    (send_message "alice" draft default_mailbox) ≡ (ok (GmailResponse.message note), mailbox)
unfolding send_message find_or_create_thread thread_by_subject create_thread new_id next_history
    store_attachments file_message update_thread_snippet estimate_size make_snippet take_chars
    byte_length to_string insert update values default_mailbox
mailbox_made = refl

pub mailbox-IsMailbox : IsMailbox mailbox
unfolding handle
mailbox-IsMailbox =
    subst (λ r. IsMailbox r.1) mailbox_made
      (state-Post IsMailbox (send_message "alice" draft default_mailbox) (
        handle_lem no_decoder same_case same_case (GmailRequest.send_message "alice" draft)
          default_mailbox default_mailbox-IsMailbox))
