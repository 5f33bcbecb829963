-- ===== src/Gmail/Mailbox/Handling.antt =====
-- Every request keeps the mailbox well filed, whatever its result.
use agent_sandbox.Gmail.Mailbox.Naming.{create_label_lem, update_label_lem, delete_label_lem}
use agent_sandbox.Gmail.Mailbox.Emptying.{delete_thread_lem}
use agent_sandbox.Gmail.Mailbox.Deleting.{delete_message_lem}
use agent_sandbox.Gmail.Labelling.{modified, trashed, untrashed}
use agent_sandbox.Gmail.Mailbox.Changing.{change_labels_lem, change_thread_lem}
use agent_sandbox.Gmail.Mailbox.Arriving.{send_message_lem, insert_message_lem}
use agent_sandbox.Common.BTreeMap.{get}
use agent_sandbox.Common.Post.{Post, state-Post}
use agent_sandbox.Gmail.Labels.{list_labels, get_label, get_profile}
use agent_sandbox.Gmail.Mailbox.{IsMailbox}
use agent_sandbox.Gmail.Threads.{get_thread, modify_thread, trash_thread, untrash_thread}
use agent_sandbox.Gmail.Listing.{list_messages, list_threads}
use agent_sandbox.Gmail.Types.{Gmail, GmailResponse, GmailRequest, GmailTwinService}
use agent_sandbox.Common.{
  none, some, String, Option, Result, TwinError, Bytes, continue, ok_or, find, str_eq,
}
use agent_sandbox.Gmail.Handle.{handle}
use agent_sandbox.Gmail.Messages.{
  get_message, modify_message, trash_message, untrash_message, get_attachment,
}

-- A read leaves the state alone, as long as what it goes on to does.
read_lem :
    {A : Type 0} (o : Option A) (e : TwinError) (f : A → Gmail GmailResponse) (s : GmailTwinService)
    → IsMailbox s
    → ((a : A) → Post (λ a t. IsMailbox t) IsMailbox (f a s))
    → Post (λ a t. IsMailbox t) IsMailbox (continue (ok_or o e s) f)
read_lem none e f s wf h = wf
read_lem (some a) e f s wf h = h a

module _ (decode : String → Result String Bytes) (to_uppercase to_lowercase : String → String) where
  pub handle_lem :
      (r : GmailRequest) (s : GmailTwinService)
      → IsMailbox s
      → Post (λ a t. IsMailbox t) IsMailbox (handle decode to_uppercase to_lowercase r s)
  unfolding handle list_messages get_message list_threads get_thread list_labels get_label
      get_attachment get_profile modify_message trash_message untrash_message modify_thread
      trash_thread untrash_thread
  handle_lem (GmailRequest.list_messages labels max token q) s wf = wf
  handle_lem (GmailRequest.get_message id format) s wf =
      read_lem (get id s.messages) _ _ s wf (λ m. wf)
  handle_lem (GmailRequest.send_message actor draft) s wf = send_message_lem actor draft s wf
  handle_lem (GmailRequest.insert_message raw) s wf = insert_message_lem decode raw s wf
  handle_lem (GmailRequest.modify_message id add remove) s wf =
      change_labels_lem s wf (modified add remove) id
  handle_lem (GmailRequest.trash_message id) s wf = change_labels_lem s wf trashed id
  handle_lem (GmailRequest.untrash_message id) s wf = change_labels_lem s wf untrashed id
  handle_lem (GmailRequest.delete_message id) s wf = delete_message_lem id s wf
  handle_lem (GmailRequest.list_threads labels max token) s wf = wf
  handle_lem (GmailRequest.get_thread id format) s wf =
      read_lem (get id s.threads) _ _ s wf (λ t. wf)
  handle_lem (GmailRequest.modify_thread id add remove) s wf =
      change_thread_lem (modified add remove) id s wf
  handle_lem (GmailRequest.trash_thread id) s wf = change_thread_lem trashed id s wf
  handle_lem (GmailRequest.untrash_thread id) s wf = change_thread_lem untrashed id s wf
  handle_lem (GmailRequest.delete_thread id) s wf = delete_thread_lem id s wf
  handle_lem GmailRequest.list_labels s wf = wf
  handle_lem (GmailRequest.get_label id) s wf = read_lem (get id s.labels) _ _ s wf (λ l. wf)
  handle_lem (GmailRequest.create_label name visibility label_visibility) s wf =
      create_label_lem s wf name visibility label_visibility
  handle_lem (GmailRequest.update_label id name visibility label_visibility) s wf =
      update_label_lem s wf id name visibility label_visibility
  handle_lem (GmailRequest.delete_label id) s wf = delete_label_lem s wf id
  handle_lem (GmailRequest.get_attachment message_id attachment_id) s wf =
      read_lem (get message_id s.messages) _ _ s wf λ m.
        read_lem (find (λ a. str_eq a.attachment_id attachment_id) m.attachments) _ _ s wf
          λ a. read_lem (get attachment_id s.attachments) _ _ s wf (λ bytes. wf)
  handle_lem (GmailRequest.get_profile actor) s wf = wf

  -- Whatever the request and its answer, a well-filed mailbox stays well filed: the messages, the
  -- threads and the labels in the order of their keys and each under its own identifier, every
  -- message in a thread that exists, and the system labels unchanged.
  pub handle-IsMailbox :
      (r : GmailRequest) (s : GmailTwinService)
      → IsMailbox s
      → IsMailbox (handle decode to_uppercase to_lowercase r s).1
  handle-IsMailbox r s wf =
      state-Post IsMailbox (handle decode to_uppercase to_lowercase r s) (handle_lem r s wf)
