-- ===== src/Gmail/Messages.antt =====
-- `handle`, the requests about one message. `decode` is the base64 decoder, a library's, with its
-- error's text.
use agent_sandbox.Gmail.Labelling.{modified, trashed, untrashed, relabel}
use agent_sandbox.Common.BTreeMap.{remove, insert, get, values, update}
use agent_sandbox.Gmail.Threading.{
  current_timestamp_ms, estimate_size, is_empty_text, update_thread_snippet, make_snippet,
  find_or_create_thread, next_history, new_message_id, new_attachment_id, in_thread,
}
use agent_sandbox.Gmail.Types.{
  SeedMessage, GmailMessage, Draft, AttachmentRef, Gmail, GmailTwinService, SeedAttachment,
  GmailResponse, not_found,
}
use agent_sandbox.Common.{
  [], none, some, ℕ, List, String, Option, Bytes, ◌∷◌, Result, if◌then◌else◌, ◌<>◌, pure, ◌+◌,
  unwrap_or, length, ok_or, ok, any, ◌%◌, err, ◌>>=◌, ◌>>◌, fail, modify, u64_mod, find, operation,
  str_eq,
}

abbrev pub fetch_message : String → Gmail GmailMessage
fetch_message id s = ok_or (get id s.messages) (not_found "message" id) s

unfoldable pub get_message : String → Gmail GmailResponse
get_message id = do m ← fetch_message id; pure (GmailResponse.message m)

abbrev pub put_attachment : String → Bytes → GmailTwinService → GmailTwinService
put_attachment id bytes s = record s { attachments = insert id bytes s.attachments }

abbrev pub reference : String → String → String → Bytes → AttachmentRef
reference id filename mime_type bytes = record {
  attachment_id = id;
  filename = filename;
  mime_type = mime_type;
  size = length bytes;
}

unfoldable pub store_attachments : List (String × String × Bytes) → Gmail (List AttachmentRef)
store_attachments [] = pure []
store_attachments ((filename, mime_type, bytes) ∷ rest) = do
  id ← new_attachment_id
  modify (put_attachment id bytes)
  refs ← store_attachments rest
  pure (reference id filename mime_type bytes ∷ refs)

abbrev pub mail_address : String → String
mail_address actor_id = actor_id <> "@twin.local"

abbrev pub sized : GmailMessage → GmailMessage
sized m = record m { size_estimate = estimate_size m }

-- `Self::current_timestamp_ms() + hid`
abbrev pub message_time : ℕ → ℕ
message_time hid = (current_timestamp_ms + hid) % u64_mod

abbrev pub sent_message : String → Draft → String → String → ℕ → List AttachmentRef → GmailMessage
sent_message actor_id draft mid tid hid refs = record {
  id = mid;
  thread_id = tid;
  label_ids = "SENT" ∷ [];
  from = mail_address actor_id;
  to = draft.to;
  cc = draft.cc;
  bcc = draft.bcc;
  subject = draft.subject;
  body_text = some draft.body;
  body_html = none;
  snippet = make_snippet draft.body;
  internal_date = message_time hid;
  size_estimate = 0;
  attachments = refs;
  history_id = hid;
}

abbrev pub store_message : GmailMessage → GmailTwinService → GmailTwinService
store_message m s = record s { messages = insert m.id m s.messages }

unfoldable pub file_message : GmailMessage → Gmail GmailResponse
file_message m = do
  modify (store_message m)
  modify (update_thread_snippet m.thread_id)
  pure (GmailResponse.message m)

unfoldable pub send_message : String → Draft → Gmail GmailResponse
send_message actor_id draft = do
  tid ← find_or_create_thread draft.thread_id draft.subject
  mid ← new_message_id
  hid ← next_history
  refs ← store_attachments draft.attachments
  file_message (sized (sent_message actor_id draft mid tid hid refs))

abbrev pub unless_empty : String → Option String
unless_empty s = if is_empty_text s then none else some s

abbrev pub given_or_new : Option String → Gmail String → Gmail String
given_or_new none fresh = fresh
given_or_new (some id) fresh = pure id

abbrev pub default_labels : List String → List String
default_labels [] = "INBOX" ∷ "UNREAD" ∷ []
default_labels (l ∷ ls) = l ∷ ls

abbrev pub inserted_message : SeedMessage → String → String → ℕ → List AttachmentRef → GmailMessage
inserted_message raw mid tid hid refs = record {
  id = mid;
  thread_id = tid;
  label_ids = default_labels raw.label_ids;
  from = raw.from;
  to = raw.to;
  cc = unwrap_or raw.cc [];
  bcc = unwrap_or raw.bcc [];
  subject = raw.subject;
  body_text = raw.body;
  body_html = raw.body_html;
  snippet = make_snippet (unwrap_or raw.body "");
  internal_date = unwrap_or raw.timestamp_ms (message_time hid);
  size_estimate = 0;
  attachments = refs;
  history_id = hid;
}

module _ (decode : String → Result String Bytes) where
  abbrev pub decoded : String → Result String Bytes → Gmail Bytes
  decoded filename (ok bytes) = pure bytes
  decoded filename (err e) =
      fail (operation ("failed to decode attachment base64 for " <> filename <> ": " <> e))

  unfoldable pub store_seed_attachments : List SeedAttachment → Gmail (List AttachmentRef)
  store_seed_attachments [] = pure []
  store_seed_attachments (a ∷ rest) = do
    id ← given_or_new a.attachment_id new_attachment_id
    bytes ← decoded a.filename (decode a.content)
    modify (put_attachment id bytes)
    refs ← store_seed_attachments rest
    pure (reference id a.filename a.mime_type bytes ∷ refs)

  unfoldable pub insert_message : SeedMessage → Gmail GmailResponse
  insert_message raw = do
    mid ← given_or_new (unless_empty raw.id) new_message_id
    tid ← find_or_create_thread (unless_empty raw.thread_id) raw.subject
    hid ← next_history
    refs ← store_seed_attachments raw.attachments
    file_message (sized (inserted_message raw mid tid hid refs))

-- The shared steps of `modify`, `trash` and `untrash`, with what becomes of the labels.
unfoldable pub change_labels : (List String → List String) → String → Gmail GmailResponse
change_labels f id = do
  m ← fetch_message id
  hid ← next_history
  modify (λ s. record s { messages = update id (relabel f hid) s.messages })
  pure (GmailResponse.message (relabel f hid m))

unfoldable pub modify_message : String → List String → List String → Gmail GmailResponse
modify_message id add remove = change_labels (modified add remove) id

unfoldable pub trash_message : String → Gmail GmailResponse
trash_message id = change_labels trashed id

unfoldable pub untrash_message : String → Gmail GmailResponse
untrash_message id = change_labels untrashed id

unfoldable pub remove_attachments : List AttachmentRef → GmailTwinService → GmailTwinService
remove_attachments [] s = s
remove_attachments (a ∷ rest) s =
    remove_attachments rest (record s { attachments = remove a.attachment_id s.attachments })

abbrev pub remove_message : GmailMessage → String → GmailTwinService → GmailTwinService
remove_message m id s =
    remove_attachments m.attachments (record s { messages = remove id s.messages })

-- The thread goes with its last message.
unfoldable pub clean_thread : String → GmailTwinService → GmailTwinService
clean_thread tid s =
    let shown = update_thread_snippet tid s in
    if any (in_thread tid) (values s.messages)
    then shown
    else record s { threads = remove tid s.threads }

unfoldable pub delete_message : String → Gmail GmailResponse
delete_message id = do
  m ← fetch_message id
  modify (remove_message m id)
  modify (clean_thread m.thread_id)
  pure GmailResponse.deleted

unfoldable pub get_attachment : String → String → Gmail GmailResponse
get_attachment message_id attachment_id = do
  m ← fetch_message message_id
  a ←
      ok_or (find (λ a. str_eq a.attachment_id attachment_id) m.attachments)
        (not_found "attachment" attachment_id)
  bytes ←
      (λ s. ok_or (get attachment_id s.attachments) (not_found "attachment data" attachment_id) s)
  pure (GmailResponse.attachment bytes a.size)
