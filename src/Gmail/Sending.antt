-- ===== src/Gmail/Sending.antt =====
-- What was sent is there to be read, with its attachments.
use agent_sandbox.Gmail.Stored.{
  store_attachments_lem, refs_from, stored, att, find-refs_from, stored-get, get_elem-refs_from,
}
use agent_sandbox.Common.Post.{Post, continue-Post}
use agent_sandbox.Gmail.Messages.{
  get_message, get_attachment, send_message, file_message, store_message,
}
use agent_sandbox.Gmail.Threading.{
  new_id, next_history, update_thread_snippet, find_or_create_thread, thread_by_subject,
  create_thread, show_latest, latest, same_subject, in_thread,
}
use agent_sandbox.Gmail.Messages.{reference}
use agent_sandbox.Common.BTreeMap.{BTreeMap, get, get-insert, values, contains_key}
use agent_sandbox.Gmail.Types.{AttachmentRef, GmailTwinService, Draft, GmailMessage, GmailResponse}
use agent_sandbox.Common.{
  some, ℕ, ◌<◌, String, u64_mod, Bytes, ◌≡◌, get_elem?, ◌+◌, length, arith, ◌∙◌, ap, find, str_eq,
  eq_refl, refl, ok, ◌%◌, ◌≤◌, Option, Result, Option-cases, TwinError, none, err, filter, inl, inr,
  Bool-cases,
}

-- Finding a thread, or making one, draws at most one number.
abbrev IsNear : GmailTwinService → String → GmailTwinService → Type 0
IsNear s tid t = t.next_id ≤ s.next_id + 1

thread_by_subject-IsNear :
    (subject : String) (s : GmailTwinService)
    → Post (IsNear s) (λ t. ⊥) (thread_by_subject subject s)
unfolding thread_by_subject create_thread new_id next_history
thread_by_subject-IsNear subject s =
    elim (Option-cases (find (same_subject subject) (values s.messages))) [
      | inl e ↦ rw e (omega arith)
      | inr (m, e) ↦ rw e (omega arith)
    ]

find_or_create_thread-IsNear :
    (given : Option String) (subject : String) (s : GmailTwinService)
    → Post (IsNear s) (λ t. ⊥) (find_or_create_thread given subject s)
unfolding find_or_create_thread
find_or_create_thread-IsNear none subject s = thread_by_subject-IsNear subject s
find_or_create_thread-IsNear (some tid) subject s = elim (Bool-cases (contains_key tid s.threads)) [
  | inl there ↦ rw there (omega arith)
  | inr absent ↦ rw absent (thread_by_subject-IsNear subject s)
]

update_thread_snippet-rest :
    (tid : String) (s : GmailTwinService)
    → ((update_thread_snippet tid s).messages ≡ s.messages)
      × ((update_thread_snippet tid s).attachments ≡ s.attachments)
unfolding update_thread_snippet
update_thread_snippet-rest tid s = go (latest none (filter (in_thread tid) (values s.messages)))
  where
    go :
        (o : Option GmailMessage)
        → ((show_latest tid o s).messages ≡ s.messages)
          × ((show_latest tid o s).attachments ≡ s.attachments)
    go none = (refl, refl)
    go (some m) = (refl, refl)

-- The answer is a message that the state now has, and each attachment of the draft is in its place,
-- with its name and its bytes.
abbrev pub IsReadable : Draft → GmailResponse → GmailTwinService → Type 0
IsReadable draft a t =
    (m : GmailMessage) × (a ≡ GmailResponse.message m)
    × (get_message m.id t ≡ (ok a, t))
    × ((i : ℕ) (filename mime_type : String) (bytes : Bytes)
        → get_elem? draft.attachments i ≡ some (filename, mime_type, bytes)
        → (ref : AttachmentRef) × (get_elem? m.attachments i ≡ some ref)
          × (ref.filename ≡ filename)
          × (get_attachment m.id ref.attachment_id t
              ≡ (ok (GmailResponse.attachment bytes (length bytes)), t)))

module _ (draft : Draft) (n : ℕ) (small : n + length draft.attachments < u64_mod) where
  file_message-IsReadable :
      (m : GmailMessage) (t : GmailTwinService) (older : BTreeMap Bytes)
      → m.attachments ≡ refs_from n draft.attachments
      → t.attachments ≡ stored n draft.attachments older
      → Post (IsReadable draft) (λ t. ⊥) (file_message m t)
  unfolding file_message get_message get_attachment
  file_message-IsReadable m t older refs store =
      let u = update_thread_snippet m.thread_id (store_message m t) in
      let (messages, attachments) = update_thread_snippet-rest m.thread_id (store_message m t) in
      let there : get m.id u.messages ≡ some m =
        ap (get m.id) messages ∙ ground (arith, get-insert m.id m.id m t.messages, eq_refl m.id) in
      (
        m,
        refl,
        rw there refl,
        λ i filename mime_type bytes e.
            let ref = reference (att (n + i)) filename mime_type bytes in
            let listed : find (λ a. str_eq a.attachment_id (att (n + i))) m.attachments ≡ some ref =
              ap (find (λ a. str_eq a.attachment_id (att (n + i)))) refs
              ∙ find-refs_from i (n + i) n draft.attachments filename mime_type bytes refl e
                  small in
            let kept : get (att (n + i)) u.attachments ≡ some bytes =
              ap (get (att (n + i))) (attachments ∙ store)
              ∙ stored-get i n draft.attachments older filename mime_type bytes e small in
            (
              ref,
              ap (λ r. get_elem? r i) refs
                  ∙ get_elem-refs_from i n draft.attachments filename mime_type bytes e,
              refl,
              rw (there, listed, kept) refl,
            ),
      )

send_message-reads :
    (actor : String) (draft : Draft) (s : GmailTwinService)
    → s.next_id + length draft.attachments + 2 < u64_mod
    → Post (IsReadable draft) (λ t. ⊥) (send_message actor draft s)
unfolding send_message new_id next_history
send_message-reads actor draft s small =
    continue-Post (IsNear s) (IsReadable draft) (λ t. ⊥) _ _
      (find_or_create_thread-IsNear draft.thread_id draft.subject s)
      λ tid t near.
        let next : (t.next_id + 1) % u64_mod ≡ t.next_id + 1 = omega arith in
        let u = record t {
          next_id = t.next_id + 1;
          next_history_id = (t.next_history_id + 1) % u64_mod;
        } in
        rw next (
          rw (store_attachments_lem draft.attachments u (omega arith)) (
            file_message-IsReadable draft (t.next_id + 1) (omega arith) _ _ t.attachments refl
              refl))

-- A message can always be sent; the answer is a message that can then be read under its identifier,
-- and every attachment of the draft can be fetched, in the draft's order and with its bytes, as long
-- as the counter of identifiers is not at the end of its 64 bits.
pub send_message-get :
    (actor : String) (draft : Draft) (s : GmailTwinService)
    → s.next_id + length draft.attachments + 2 < u64_mod
    → (a : GmailResponse) × ((send_message actor draft s).0 ≡ ok a)
      × IsReadable draft a (send_message actor draft s).1
send_message-get actor draft s small =
    go (send_message actor draft s) (send_message-reads actor draft s small)
  where
    go :
        (r : Result TwinError GmailResponse × GmailTwinService)
        → Post (IsReadable draft) (λ t. ⊥) r
        → (a : GmailResponse) × (r.0 ≡ ok a) × IsReadable draft a r.1
    go (ok a, t) h = (a, refl, h)
    go (err e, t) h = absurd h
