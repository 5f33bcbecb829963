-- ===== src/Gmail/Mailbox/Filing.antt =====
-- Filing a message: its thread is found or made first.
use agent_sandbox.Common.BTreeMap.Order.{IsSorted-update, IsSorted-insert}
use mathlib.Core.Option
use agent_sandbox.Common.BTreeMap.Search.{find-values-some}
use agent_sandbox.Common.BTreeMap.{
  contains_key, get, values, insert, get-insert, update, get-update,
}
use agent_sandbox.Common.Post.{Post}
use agent_sandbox.Gmail.Mailbox.{IsMailbox, insert-IsFiled, threads-IsFiled}
use agent_sandbox.Gmail.Threading.{
  update_thread_snippet, create_thread, find_or_create_thread, thread_by_subject, show_latest,
  new_id, next_history, same_subject, new_thread, with_latest, latest, in_thread,
}
use agent_sandbox.Gmail.Types.{GmailTwinService, GmailMessage, GmailThread}
use agent_sandbox.Gmail.Messages.{file_message, store_message}
use agent_sandbox.Common.{
  none, some, String, Option, Option-cases, Bool-cases, ◌≡◌, find, true, inl, ◌<>◌, inr, to_string,
  if◌then◌else◌, str_eq, arith, eq_iff, eq_refl, sym, ◌∙◌, filter, refl,
}

-- The thread is there.
abbrev pub IsReady : String → GmailTwinService → Type 0
IsReady tid s = IsMailbox s × (contains_key tid s.threads ≡ true)

module _ (s : GmailTwinService) (wf : IsMailbox s) where
  create_thread_lem : Post IsReady IsMailbox (create_thread s)
  unfolding create_thread new_id next_history
  create_thread_lem =
      let tid = "thread_" <> to_string s.next_id in
      let t = new_thread tid s.next_history_id in
      (
        threads-IsFiled s.messages s.threads s.labels wf (insert tid t s.threads)
            (IsSorted-insert tid t s.threads wf.sorted_threads)
            (λ k h. ground (arith, get-insert k tid t s.threads))
            (λ k u e.
              ground (arith, get-insert k tid t s.threads, eq_iff tid k, wf.own_threads k u)),
        ground (arith, get-insert tid tid t s.threads, eq_refl tid),
      )

  thread_by_subject_lem : (subject : String) → Post IsReady IsMailbox (thread_by_subject subject s)
  unfolding thread_by_subject
  thread_by_subject_lem subject =
      elim (Option-cases (find (same_subject subject) (values s.messages))) [
        | inl e ↦ rw e create_thread_lem
        | inr (m, e) ↦
            let (k, found, _) = find-values-some (same_subject subject) s.messages m wf.sorted e in
            rw e (wf, wf.threaded k m found)
      ]

  pub find_or_create_thread_lem :
      (given : Option String) (subject : String)
      → Post IsReady IsMailbox (find_or_create_thread given subject s)
  unfolding find_or_create_thread
  find_or_create_thread_lem none subject = thread_by_subject_lem subject
  find_or_create_thread_lem (some tid) subject = elim (Bool-cases (contains_key tid s.threads)) [
    | inl there ↦ rw there (wf, there)
    | inr absent ↦ rw absent (thread_by_subject_lem subject)
  ]

-- The snippet of a thread is no matter.
pub update_thread_snippet-IsMailbox :
    (tid : String) (s : GmailTwinService) → IsMailbox s → IsMailbox (update_thread_snippet tid s)
unfolding update_thread_snippet
update_thread_snippet-IsMailbox tid s wf =
    go (latest none (filter (in_thread tid) (values s.messages)))
  where
    go : (o : Option GmailMessage) → IsMailbox (show_latest tid o s)
    go none = wf
    go (some m) =
        threads-IsFiled s.messages s.threads s.labels wf (update tid (with_latest m) s.threads)
          (IsSorted-update tid (with_latest m) s.threads wf.sorted_threads)
          (λ k h. ground (arith, get-update k tid (with_latest m) s.threads))
          (λ k t e.
            own k t (get k s.threads) refl (sym (get-update k tid (with_latest m) s.threads) ∙ e))
      where
        own :
            (k : String) (t : GmailThread) (o : Option GmailThread)
            → get k s.threads ≡ o
            → (if str_eq tid k then Option.map (with_latest m) o else o) ≡ some t
            → t.id ≡ k
        own k t none e h = absurd (ground arith)
        own k t (some u) e h = ground (arith, wf.own_threads k u e)

pub file_message_lem :
    (m : GmailMessage) (s : GmailTwinService)
    → IsReady m.thread_id s
    → Post (λ a t. IsMailbox t) IsMailbox (file_message m s)
unfolding file_message
file_message_lem m s (wf, there) =
    update_thread_snippet-IsMailbox m.thread_id (store_message m s)
      (insert-IsFiled s.messages s.threads s.labels wf m there)
