-- ===== src/Gmail/Mailbox/Deleting.antt =====
-- Deletions: the mailbox stays well filed, since a thread goes only where no message names it.
use agent_sandbox.Common.BTreeMap.Order.{IsSorted-remove}
use agent_sandbox.Gmail.Mailbox.Filing.{update_thread_snippet-IsMailbox}
use agent_sandbox.Gmail.Threading.{in_thread}
use agent_sandbox.Common.Post.{Post, continue-Post, ok_or-Post}
use agent_sandbox.Gmail.Mailbox.{IsMailbox, narrow-IsFiled, remove_thread-IsFiled}
use agent_sandbox.Common.BTreeMap.{values, get, BTreeMap, remove, get-remove}
use agent_sandbox.Gmail.Types.{GmailMessage, AttachmentRef, GmailTwinService}
use agent_sandbox.Gmail.Messages.{
  delete_message, remove_attachments, clean_thread, remove_message, fetch_message,
}
use agent_sandbox.Common.{
  some, String, List, Bool, any, Bool-cases, ◌∷◌, ◌≡◌, arith, false, inl, [], inr, refl,
}

-- Attachments may go.
remove_attachments-IsMailbox :
    (refs : List AttachmentRef) (s : GmailTwinService)
    → IsMailbox s
    → IsMailbox (remove_attachments refs s)
unfolding remove_attachments
remove_attachments-IsMailbox [] s wf = wf
remove_attachments-IsMailbox (a ∷ rest) s wf =
    remove_attachments-IsMailbox rest
      (record s { attachments = remove a.attachment_id s.attachments }) wf

pub remove_message-IsMailbox :
    (m : GmailMessage) (id : String) (s : GmailTwinService)
    → IsMailbox s
    → IsMailbox (remove_message m id s)
remove_message-IsMailbox m id s wf =
    remove_attachments-IsMailbox m.attachments (record s { messages = remove id s.messages })
      (narrow-IsFiled s.messages s.threads s.labels wf (remove id s.messages)
        (IsSorted-remove id s.messages wf.sorted) λ k n e. (n, kept k n e, refl, refl))
  where
    kept :
        (k : String) (n : GmailMessage)
        → get k (remove id s.messages) ≡ some n
        → get k s.messages ≡ some n
    kept k n e = ground (arith, get-remove k id s.messages)

-- A test that holds of no value holds of no entry.
pub none_of_any :
    {V : Type 0} (p : V → Bool) (m : BTreeMap V)
    → any p (values m) ≡ false
    → (k : String) (v : V) → get k m ≡ some v
    → p v ≡ false
unfolding values get
none_of_any p [] h k v e = absurd (ground arith)
none_of_any p ((j, w) ∷ m) h k v e =
    let rest : any p (values m) ≡ false = ground arith in ground (arith, none_of_any p m rest k v)

clean_thread-IsMailbox :
    (tid : String) (s : GmailTwinService) → IsMailbox s → IsMailbox (clean_thread tid s)
unfolding clean_thread
clean_thread-IsMailbox tid s wf = elim (Bool-cases (any (in_thread tid) (values s.messages))) [
  | inl used ↦ rw used (update_thread_snippet-IsMailbox tid s wf)
  | inr empty ↦ rw empty (
      remove_thread-IsFiled s.messages s.threads s.labels wf tid
        (none_of_any (in_thread tid) s.messages empty))
]

pub delete_message_lem :
    (id : String) (s : GmailTwinService)
    → IsMailbox s
    → Post (λ a t. IsMailbox t) IsMailbox (delete_message id s)
unfolding delete_message
delete_message_lem id s wf =
    continue-Post (λ m t. t ≡ s) (λ a t. IsMailbox t) IsMailbox (fetch_message id s) _
      (ok_or-Post (λ m t. t ≡ s) IsMailbox (get id s.messages) _ s wf (λ m e. refl))
      λ m t e. rw e (
        clean_thread-IsMailbox m.thread_id (remove_message m id s)
          (remove_message-IsMailbox m id s wf))
