-- ===== src/Gmail/Mailbox/Arriving.antt =====
-- Messages that arrive, sent or inserted: the mailbox stays well filed, also where an attachment is
-- refused half way.
use agent_sandbox.Gmail.Mailbox.Filing.{IsReady, find_or_create_thread_lem, file_message_lem}
use agent_sandbox.Common.Post.{Post, continue-Post}
use agent_sandbox.Gmail.Mailbox.{IsMailbox}
use agent_sandbox.Gmail.Messages.{
  send_message, store_attachments, insert_message, store_seed_attachments, given_or_new, decoded,
  unless_empty, put_attachment,
}
use agent_sandbox.Gmail.Types.{
  GmailResponse, GmailTwinService, Draft, AttachmentRef, SeedAttachment, SeedMessage,
}
use agent_sandbox.Gmail.Threading.{new_id, next_history, find_or_create_thread}
use agent_sandbox.Common.{
  none, some, String, List, Result, Option, Bytes, ℕ, ◌+◌, ◌∷◌, ok, ◌%◌, err, u64_mod, ◌<>◌, [],
  to_string,
}

abbrev IsKept : GmailResponse → GmailTwinService → Type 0
IsKept a t = IsMailbox t

-- The attachments of a message leave its thread where it is.
abbrev HasRefs : String → List AttachmentRef → GmailTwinService → Type 0
HasRefs tid refs t = IsReady tid t

store_attachments_lem :
    (tid : String) (atts : List (String × String × Bytes)) (s : GmailTwinService)
    → IsReady tid s
    → Post (HasRefs tid) IsMailbox (store_attachments atts s)
unfolding store_attachments new_id
store_attachments_lem tid [] s ready = ready
store_attachments_lem tid ((filename, mime_type, bytes) ∷ rest) s ready =
    let t =
      put_attachment ("att_" <> to_string s.next_id) bytes
        (record s { next_id = (s.next_id + 1) % u64_mod }) in
    continue-Post (HasRefs tid) (HasRefs tid) IsMailbox (store_attachments rest t) _
      (store_attachments_lem tid rest t ready) (λ refs u h. h)

pub send_message_lem :
    (actor : String) (draft : Draft) (s : GmailTwinService)
    → IsMailbox s
    → Post IsKept IsMailbox (send_message actor draft s)
unfolding send_message new_id next_history
send_message_lem actor draft s wf =
    continue-Post IsReady IsKept IsMailbox (find_or_create_thread draft.thread_id draft.subject s) _
      (find_or_create_thread_lem s wf draft.thread_id draft.subject)
      λ tid t ready.
        continue-Post (HasRefs tid) IsKept IsMailbox _ _
          (store_attachments_lem tid draft.attachments _ ready) λ refs u h. file_message_lem _ u h

pub given_or_new_lem :
    (P E : GmailTwinService → Type 0) (o : Option String) (prefix : String) (s : GmailTwinService)
    → ((n : ℕ) → P (record s { next_id = n }))
    → P s
    → Post (λ id t. P t) E (given_or_new o (new_id prefix) s)
unfolding new_id
given_or_new_lem P E none prefix s fresh h = fresh ((s.next_id + 1) % u64_mod)
given_or_new_lem P E (some id) prefix s fresh h = h

module _ (decode : String → Result String Bytes) where
  decoded_lem :
      (tid filename : String) (r : Result String Bytes) (s : GmailTwinService)
      → IsReady tid s
      → Post (λ bytes t. IsReady tid t) IsMailbox (decoded decode filename r s)
  decoded_lem tid filename (ok bytes) s ready = ready
  decoded_lem tid filename (err e) s (wf, there) = wf

  store_seed_attachments_lem :
      (tid : String) (atts : List SeedAttachment) (s : GmailTwinService)
      → IsReady tid s
      → Post (HasRefs tid) IsMailbox (store_seed_attachments decode atts s)
  unfolding store_seed_attachments
  store_seed_attachments_lem tid [] s ready = ready
  store_seed_attachments_lem tid (a ∷ rest) s ready =
      continue-Post (λ id t. IsReady tid t) (HasRefs tid) IsMailbox _ _
        (given_or_new_lem (IsReady tid) IsMailbox a.attachment_id "att_" s (λ n. ready) ready)
        λ id t here.
          continue-Post (λ bytes u. IsReady tid u) (HasRefs tid) IsMailbox _ _
            (decoded_lem tid a.filename (decode a.content) t here)
            λ bytes u there.
              continue-Post (HasRefs tid) (HasRefs tid) IsMailbox _ _
                (store_seed_attachments_lem tid rest (put_attachment id bytes u) there)
                (λ refs v h. h)

  pub insert_message_lem :
      (raw : SeedMessage) (s : GmailTwinService)
      → IsMailbox s
      → Post IsKept IsMailbox (insert_message decode raw s)
  unfolding insert_message next_history
  insert_message_lem raw s wf =
      continue-Post (λ id t. IsMailbox t) IsKept IsMailbox _ _
        (given_or_new_lem IsMailbox IsMailbox (unless_empty raw.id) "msg_" s (λ n. wf) wf)
        λ mid t here.
          continue-Post IsReady IsKept IsMailbox _ _
            (find_or_create_thread_lem t here (unless_empty raw.thread_id) raw.subject)
            λ tid u ready.
              continue-Post (HasRefs tid) IsKept IsMailbox _ _
                (store_seed_attachments_lem tid raw.attachments _ ready)
                λ refs v h. file_message_lem _ v h
