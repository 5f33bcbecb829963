-- ===== src/Gmail/Refusals.antt =====
-- Refused requests and what they leave behind.
use agent_sandbox.Gmail.Steps.{
  IsSame, find_or_create_thread-IsSafe, store_attachments-IsSafe, weaken, insert_message-Post,
}
use agent_sandbox.Gmail.Listing.{list_messages, list_threads}
use agent_sandbox.Gmail.Handle.{handle}
use agent_sandbox.Gmail.Messages.{
  get_message, modify_message, trash_message, untrash_message, get_attachment, delete_message,
  change_labels,
}
use agent_sandbox.Gmail.Labels.{
  create_label, update_label, delete_label, list_labels, get_label, get_profile, has_name, is_user,
}
use agent_sandbox.Gmail.Threads.{
  change_thread, get_thread, modify_thread, trash_thread, untrash_thread, delete_thread,
}
use agent_sandbox.Common.Post.{Post, continue-Post}
use agent_sandbox.Common.BTreeMap.{values, get}
use agent_sandbox.Gmail.Messages.{send_message, file_message}
use agent_sandbox.Gmail.Threading.{new_id, next_history}
use agent_sandbox.Gmail.Types.{GmailRequest, GmailTwinService, Gmail, GmailResponse, Draft}
use agent_sandbox.Common.{
  none, some, Option, String, Bool, ◌≡◌, TwinError, Result, Bytes, continue, require, ok, ok_or,
  ◌>>◌, find, err, refl, true, false, arith, not, any, str_eq,
}

-- What a refused request leaves: an insertion may have made a thread, stored attachments and drawn
-- numbers before it fails; all others leave the state as it was.
abbrev pub Left : GmailRequest → GmailTwinService → GmailTwinService → Type 0
Left (GmailRequest.insert_message raw) s t = IsSame s t
Left _ s t = t ≡ s

abbrev Refuses : GmailTwinService → Result TwinError GmailResponse × GmailTwinService → Type 0
Refuses s r = Post (λ a t. Unit) (λ t. t ≡ s) r

send_message-Refuses :
    (actor : String) (draft : Draft) (s : GmailTwinService) → Refuses s (send_message actor draft s)
unfolding send_message file_message new_id next_history
send_message-Refuses actor draft s =
    continue-Post (λ a t. IsSame s t) (λ a t. Unit) (λ t. t ≡ s) _ _
      (weaken (λ t. t ≡ s) s _ (find_or_create_thread-IsSafe draft.thread_id draft.subject s))
      λ tid t same.
        continue-Post (λ a u. IsSame s u) (λ a u. Unit) (λ u. u ≡ s) _ _
          (weaken (λ u. u ≡ s) s _ (store_attachments-IsSafe draft.attachments s _ same))
          (λ refs u h. tt)

read-Refuses :
    {A : Type 0} (o : Option A) (e : TwinError) (f : A → Gmail GmailResponse) (s : GmailTwinService)
    → ((a : A) → Refuses s (f a s))
    → Refuses s (continue (ok_or o e s) f)
read-Refuses none e f s h = refl
read-Refuses (some a) e f s h = h a

require-Refuses :
    (b : Bool) (e : TwinError) (k : Gmail GmailResponse) (s : GmailTwinService)
    → Refuses s (k s)
    → Refuses s ((require b e >> k) s)
require-Refuses true e k s h = h
require-Refuses false e k s h = refl

module _ (decode : String → Result String Bytes) (to_uppercase to_lowercase : String → String) where
  handle-Post :
      (r : GmailRequest) (s : GmailTwinService)
      → Post (λ a t. Unit) (Left r s) (handle decode to_uppercase to_lowercase r s)
  unfolding handle list_messages get_message list_threads get_thread list_labels get_label
      get_attachment get_profile modify_message trash_message untrash_message change_labels
      delete_message modify_thread trash_thread untrash_thread change_thread delete_thread
      create_label update_label delete_label next_history new_id
  handle-Post (GmailRequest.list_messages labels max token q) s = tt
  handle-Post (GmailRequest.get_message id format) s =
      read-Refuses (get id s.messages) _ _ s (λ m. tt)
  handle-Post (GmailRequest.send_message actor draft) s = send_message-Refuses actor draft s
  handle-Post (GmailRequest.insert_message raw) s = insert_message-Post decode raw s
  handle-Post (GmailRequest.modify_message id add remove) s =
      read-Refuses (get id s.messages) _ _ s (λ m. tt)
  handle-Post (GmailRequest.trash_message id) s = read-Refuses (get id s.messages) _ _ s (λ m. tt)
  handle-Post (GmailRequest.untrash_message id) s = read-Refuses (get id s.messages) _ _ s (λ m. tt)
  handle-Post (GmailRequest.delete_message id) s = read-Refuses (get id s.messages) _ _ s (λ m. tt)
  handle-Post (GmailRequest.list_threads labels max token) s = tt
  handle-Post (GmailRequest.get_thread id format) s =
      read-Refuses (get id s.threads) _ _ s (λ t. tt)
  handle-Post (GmailRequest.modify_thread id add remove) s =
      read-Refuses (get id s.threads) _ _ s (λ t. tt)
  handle-Post (GmailRequest.trash_thread id) s = read-Refuses (get id s.threads) _ _ s (λ t. tt)
  handle-Post (GmailRequest.untrash_thread id) s = read-Refuses (get id s.threads) _ _ s (λ t. tt)
  handle-Post (GmailRequest.delete_thread id) s = read-Refuses (get id s.threads) _ _ s (λ t. tt)
  handle-Post GmailRequest.list_labels s = tt
  handle-Post (GmailRequest.get_label id) s = read-Refuses (get id s.labels) _ _ s (λ l. tt)
  handle-Post (GmailRequest.create_label name visibility label_visibility) s =
      require-Refuses (not (any (has_name name) (values s.labels))) _ _ s tt
  handle-Post (GmailRequest.update_label id name visibility label_visibility) s =
      read-Refuses (get id s.labels) _ _ s (λ l. require-Refuses (is_user l) _ _ s tt)
  handle-Post (GmailRequest.delete_label id) s =
      read-Refuses (get id s.labels) _ _ s (λ l. require-Refuses (is_user l) _ _ s tt)
  handle-Post (GmailRequest.get_attachment message_id attachment_id) s =
      read-Refuses (get message_id s.messages) _ _ s λ m.
        read-Refuses (find (λ a. str_eq a.attachment_id attachment_id) m.attachments) _ _ s
          λ a. read-Refuses (get attachment_id s.attachments) _ _ s (λ bytes. tt)
  handle-Post (GmailRequest.get_profile actor) s = tt

  -- A request that is answered with an error leaves the state as it was; an insertion, which may
  -- have made a thread and stored attachments by then, leaves the messages and the labels.
  pub handle-Left :
      (r : GmailRequest) (e : TwinError) (s : GmailTwinService)
      → (handle decode to_uppercase to_lowercase r s).0 ≡ err e
      → Left r s (handle decode to_uppercase to_lowercase r s).1
  handle-Left r e s failed =
      go (handle decode to_uppercase to_lowercase r s) failed (handle-Post r s)
    where
      go :
          (a : Result TwinError GmailResponse × GmailTwinService)
          → a.0 ≡ err e
          → Post (λ b t. Unit) (Left r s) a
          → Left r s a.1
      go (ok b, t) same h = absurd (ground arith)
      go (err f, t) same h = h
