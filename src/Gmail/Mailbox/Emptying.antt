-- ===== src/Gmail/Mailbox/Emptying.antt =====
-- A deleted thread goes with its messages, and with nothing else.
use agent_sandbox.Gmail.Mailbox.Deleting.{remove_message-IsMailbox}
use agent_sandbox.Gmail.Mailbox.Members.{
  drop_messages-get, contains-message_ids, drop_messages-rest,
}
use agent_sandbox.Gmail.Threading.{in_thread}
use agent_sandbox.Common.Post.{Post, continue-Post, ok_or-Post}
use agent_sandbox.Common.BTreeMap.{get, get-remove}
use agent_sandbox.Gmail.Mailbox.{IsMailbox, remove_thread-IsFiled}
use agent_sandbox.Gmail.Types.{GmailTwinService, GmailThread, GmailMessage, GmailResponse}
use agent_sandbox.Gmail.Threads.{
  delete_thread, drop_messages, message_ids, thread_messages, drop_message, fetch_thread,
}
use agent_sandbox.Common.{
  none, some, String, List, ◌∷◌, ◌≡◌, Option, ok, if◌then◌else◌, arith, false, str_eq, Bool-cases,
  [], inl, refl, inr, sym, ◌∙◌, ap,
}

drop_messages-IsMailbox :
    (ids : List String) (s : GmailTwinService) → IsMailbox s → IsMailbox (drop_messages ids s)
unfolding drop_messages
drop_messages-IsMailbox [] s wf = wf
drop_messages-IsMailbox (id ∷ ids) s wf =
    drop_messages-IsMailbox ids (drop_message id (get id s.messages) s) (one (get id s.messages))
  where
    one : (o : Option GmailMessage) → IsMailbox (drop_message id o s)
    one none = wf
    one (some m) = remove_message-IsMailbox m id s wf

abbrev emptied : String → GmailTwinService → GmailTwinService
emptied id s = drop_messages (message_ids (thread_messages id s)) s

module _ (id : String) (s : GmailTwinService) (wf : IsMailbox s) where
  emptied-get :
      (k : String) (m : GmailMessage)
      → get k s.messages ≡ some m
      → get k (emptied id s).messages ≡ (if in_thread id m then none else some m)
  emptied-get k m e = ground (
    arith,
    drop_messages-get k (message_ids (thread_messages id s)) s,
    contains-message_ids (in_thread id) k m s.messages wf.sorted wf.own_messages e,
  )

  emptied-absent : (k : String) → get k s.messages ≡ none → get k (emptied id s).messages ≡ none
  emptied-absent k e = ground (arith, drop_messages-get k (message_ids (thread_messages id s)) s)

  emptied-in_thread :
      (k : String) (m : GmailMessage)
      → get k (emptied id s).messages ≡ some m
      → in_thread id m ≡ false
  emptied-in_thread k m e = go (get k s.messages) refl
    where
      go : (o : Option GmailMessage) → get k s.messages ≡ o → in_thread id m ≡ false
      go none h = absurd (ground (arith, emptied-absent k h))
      go (some n) h = elim (Bool-cases (in_thread id n)) [
        | inl there ↦ absurd (ground (arith, emptied-get k n h))
        | inr other ↦ let same : n ≡ m = ground (arith, emptied-get k n h) in rw (sym same) other
      ]

  pub delete_thread_lem : Post (λ a t. IsMailbox t) IsMailbox (delete_thread id s)
  unfolding delete_thread
  delete_thread_lem =
      continue-Post (λ m t. t ≡ s) (λ a t. IsMailbox t) IsMailbox (fetch_thread id s) _
        (ok_or-Post (λ m t. t ≡ s) IsMailbox (get id s.threads) _ s wf (λ m e. refl))
        λ m t e. rw e (
          remove_thread-IsFiled (emptied id s).messages (emptied id s).threads (emptied id s).labels
            (drop_messages-IsMailbox (message_ids (thread_messages id s)) s wf) id
            emptied-in_thread)

-- Deleting a thread of a well-filed mailbox succeeds; each of its messages and the thread itself are
-- gone, every other message and thread and all labels are as before.
pub delete_thread-removes :
    (id : String) (t : GmailThread) (s : GmailTwinService)
    → IsMailbox s
    → get id s.threads ≡ some t
    → ((delete_thread id s).0 ≡ ok GmailResponse.deleted)
      × ((k : String) (m : GmailMessage)
          → get k s.messages ≡ some m
          → get k (delete_thread id s).1.messages ≡ (if in_thread id m then none else some m))
      × ((k : String) → get k s.messages ≡ none → get k (delete_thread id s).1.messages ≡ none)
      × ((k : String)
          → get k (delete_thread id s).1.threads ≡ (if str_eq id k then none else get k s.threads))
      × ((delete_thread id s).1.labels ≡ s.labels)
unfolding delete_thread
delete_thread-removes id t s wf found =
    let (threads, labels) = drop_messages-rest (message_ids (thread_messages id s)) s in
    rw found (
      refl,
      emptied-get id s wf,
      emptied-absent id s wf,
      (λ k.
          get-remove k id (emptied id s).threads
          ∙ ap (λ m. if str_eq id k then none else get k m) threads),
      labels,
    )
