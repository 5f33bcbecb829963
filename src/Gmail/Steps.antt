-- ===== src/Gmail/Steps.antt =====
-- What the steps of sending and inserting leave in place when a later step fails.
use agent_sandbox.Gmail.Mailbox.Arriving.{given_or_new_lem}
use agent_sandbox.Common.Post.{Post, continue-Post}
use agent_sandbox.Common.BTreeMap.{contains_key, values}
use agent_sandbox.Gmail.Messages.{
  store_attachments, file_message, insert_message, store_seed_attachments, unless_empty, decoded,
  put_attachment,
}
use agent_sandbox.Gmail.Threading.{
  find_or_create_thread, thread_by_subject, new_id, create_thread, next_history, same_subject,
}
use agent_sandbox.Gmail.Types.{GmailTwinService, SeedAttachment, SeedMessage}
use agent_sandbox.Common.{
  [], none, some, Option, String, ◌≡◌, Bool-cases, TwinError, Result, List, Bytes, Option-cases, ok,
  inl, find, err, inr, ◌∙◌, refl, ◌∷◌,
}

-- The messages and labels are those of `s`.
abbrev pub IsSame : GmailTwinService → GmailTwinService → Type 0
IsSame s t = (t.messages ≡ s.messages) × (t.labels ≡ s.labels)

-- The operation cannot fail, and keeps messages and labels.
abbrev pub IsSafe : {A : Type 0} → GmailTwinService → Result TwinError A × GmailTwinService → Type 0
IsSafe s r = Post (λ a t. IsSame s t) (λ t. ⊥) r

thread_by_subject-IsSafe :
    (subject : String) (s : GmailTwinService) → IsSafe s (thread_by_subject subject s)
unfolding thread_by_subject create_thread new_id next_history
thread_by_subject-IsSafe subject s =
    elim (Option-cases (find (same_subject subject) (values s.messages))) [
      | inl e ↦ rw e (refl, refl)
      | inr (m, e) ↦ rw e (refl, refl)
    ]

pub find_or_create_thread-IsSafe :
    (given : Option String) (subject : String) (s : GmailTwinService)
    → IsSafe s (find_or_create_thread given subject s)
unfolding find_or_create_thread
find_or_create_thread-IsSafe none subject s = thread_by_subject-IsSafe subject s
find_or_create_thread-IsSafe (some tid) subject s = elim (Bool-cases (contains_key tid s.threads)) [
  | inl there ↦ rw there (refl, refl)
  | inr absent ↦ rw absent (thread_by_subject-IsSafe subject s)
]

pub store_attachments-IsSafe :
    (atts : List (String × String × Bytes)) (s t : GmailTwinService)
    → IsSame s t
    → IsSafe s (store_attachments atts t)
unfolding store_attachments new_id
store_attachments-IsSafe [] s t same = same
store_attachments-IsSafe ((filename, mime_type, bytes) ∷ rest) s t same =
    continue-Post (λ a u. IsSame s u) (λ a u. IsSame s u) (λ u. ⊥) _ _
      (store_attachments-IsSafe rest s _ same) (λ refs u h. h)

-- A failure that cannot be counts as any failure.
pub weaken :
    {A : Type 0} (P : GmailTwinService → Type 0) (s : GmailTwinService)
    (r : Result TwinError A × GmailTwinService)
    → IsSafe s r
    → Post (λ a t. IsSame s t) P r
weaken P s (ok a, t) h = h
weaken P s (err e, t) h = absurd h

module _ (decode : String → Result String Bytes) where
  store_seed_attachments-IsSame :
      (atts : List SeedAttachment) (s t : GmailTwinService)
      → IsSame s t
      → Post (λ a u. IsSame s u) (IsSame s) (store_seed_attachments decode atts t)
  unfolding store_seed_attachments
  store_seed_attachments-IsSame [] s t same = same
  store_seed_attachments-IsSame (a ∷ rest) s t same =
      continue-Post (λ id u. IsSame s u) (λ refs u. IsSame s u) (IsSame s) _ _
        (given_or_new_lem (IsSame s) (IsSame s) a.attachment_id "att_" t (λ n. same) same)
        λ id u here.
          continue-Post (λ bytes v. IsSame s v) (λ refs v. IsSame s v) (IsSame s) _ _
            (decoded-IsSame a.filename (decode a.content) u here)
            λ bytes v there.
              continue-Post (λ refs w. IsSame s w) (λ refs w. IsSame s w) (IsSame s) _ _
                (store_seed_attachments-IsSame rest s (put_attachment id bytes v) there)
                (λ refs w h. h)
    where
      decoded-IsSame :
          (filename : String) (r : Result String Bytes) (u : GmailTwinService)
          → IsSame s u
          → Post (λ bytes v. IsSame s v) (IsSame s) (decoded decode filename r u)
      decoded-IsSame filename (ok bytes) u h = h
      decoded-IsSame filename (err e) u h = h

  pub insert_message-Post :
      (raw : SeedMessage) (s : GmailTwinService)
      → Post (λ a t. Unit) (IsSame s) (insert_message decode raw s)
  unfolding insert_message file_message next_history
  insert_message-Post raw s =
      continue-Post (λ id t. IsSame s t) (λ a t. Unit) (IsSame s) _ _
        (given_or_new_lem (IsSame s) (IsSame s) (unless_empty raw.id) "msg_" s (λ n. (refl, refl))
          (refl, refl))
        λ mid t here.
          continue-Post (λ tid u. IsSame s u) (λ a u. Unit) (IsSame s) _ _ (from_safe t here)
            λ tid u there.
              continue-Post (λ refs v. IsSame s v) (λ a v. Unit) (IsSame s) _ _
                (store_seed_attachments-IsSame raw.attachments s _ there) (λ refs v h. tt)
    where
      through :
          (t : GmailTwinService) (r : Result TwinError String × GmailTwinService)
          → IsSame s t
          → IsSafe t r
          → Post (λ tid u. IsSame s u) (IsSame s) r
      through t (ok a, u) (m, l) (n, k) = (n ∙ m, k ∙ l)
      through t (err e, u) here h = absurd h

      from_safe :
          (t : GmailTwinService)
          → IsSame s t
          → Post
              (λ tid u. IsSame s u)
              (IsSame s)
              (find_or_create_thread (unless_empty raw.thread_id) raw.subject t)
      from_safe t here =
          through t _ here (find_or_create_thread-IsSafe (unless_empty raw.thread_id) raw.subject t)
