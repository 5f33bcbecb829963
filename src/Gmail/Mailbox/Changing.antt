-- ===== src/Gmail/Mailbox/Changing.antt =====
-- New labels on messages, one or all of a thread: the mailbox stays well filed.
use agent_sandbox.Gmail.Threads.{change_thread, touch, relabel_thread, relabel_in, fetch_thread}
use agent_sandbox.Gmail.Labelling.{relabel}
use agent_sandbox.Common.Post.{Post, continue-Post, ok_or-Post}
use agent_sandbox.Common.BTreeMap.Order.{IsSorted, IsSorted-map_values, IsSorted-update}
use agent_sandbox.Gmail.Threading.{next_history}
use agent_sandbox.Common.BTreeMap.{BTreeMap, map_values, get, get-map_values, update, get-update}
use agent_sandbox.Gmail.Messages.{change_labels, fetch_message}
use agent_sandbox.Gmail.Mailbox.{IsMailbox, IsFiled, narrow-IsFiled, threads-IsFiled}
use agent_sandbox.Gmail.Types.{GmailTwinService, GmailMessage}
use mathlib.Core.Option
use agent_sandbox.Common.{
  none, some, Option, ◌≡◌, arith, String, refl, List, ℕ, sym, ◌∙◌, if◌then◌else◌, str_eq, Bool,
  true, false,
}

pub map-some :
    {A B : Type 0} (f : A → B) (o : Option A) (b : B)
    → Option.map f o ≡ some b
    → (a : A) × (o ≡ some a) × (f a ≡ b)
map-some f none b e = absurd (ground arith)
map-some f (some a) b e = (a, refl, ground arith)

pub map-if :
    {A : Type 0} (b : Bool) (f : A → A) (o : Option A)
    → (if b then Option.map f o else o) ≡ Option.map (λ a. if b then f a else a) o
map-if true f o = refl
map-if false f none = refl
map-if false f (some a) = refl

module _ (s : GmailTwinService) (wf : IsMailbox s) where
  -- What was changed in each message keeps identifier and thread.
  altered-IsFiled :
      (others : BTreeMap GmailMessage) (f : String → GmailMessage → GmailMessage)
      → IsSorted others
      → ((k : String) → get k others ≡ Option.map (f k) (get k s.messages))
      → ((k : String) (m : GmailMessage) → (f k m).id ≡ m.id)
      → ((k : String) (m : GmailMessage) → (f k m).thread_id ≡ m.thread_id)
      → IsFiled others s.threads s.labels
  altered-IsFiled others f sorted same ids tids =
      narrow-IsFiled s.messages s.threads s.labels wf others sorted λ k n e.
        let (m, found, made) = map-some (f k) (get k s.messages) n (sym (same k) ∙ e) in
        (m, found, rw (sym made) (ids k m), rw (sym made) (tids k m))

  pub each-IsFiled :
      (f : GmailMessage → GmailMessage)
      → ((m : GmailMessage) → (f m).id ≡ m.id)
      → ((m : GmailMessage) → (f m).thread_id ≡ m.thread_id)
      → IsFiled (map_values f s.messages) s.threads s.labels
  each-IsFiled f ids tids =
      altered-IsFiled (map_values f s.messages) (λ k. f)
        (IsSorted-map_values f s.messages wf.sorted) (λ k. get-map_values k f s.messages) (λ k. ids)
        (λ k. tids)

  pub change_labels_lem :
      (f : List String → List String) (id : String)
      → Post (λ a t. IsMailbox t) IsMailbox (change_labels f id s)
  unfolding change_labels next_history
  change_labels_lem f id =
      continue-Post (λ m t. t ≡ s) (λ a t. IsMailbox t) IsMailbox (fetch_message id s) _
        (ok_or-Post (λ m t. t ≡ s) IsMailbox (get id s.messages) _ s wf (λ m e. refl))
        λ m t e. rw e (go s.next_history_id)
    where
      go : (hid : ℕ) → IsFiled (update id (relabel f hid) s.messages) s.threads s.labels
      go hid =
          altered-IsFiled (update id (relabel f hid) s.messages)
            (λ k m. if str_eq id k then relabel f hid m else m)
            (IsSorted-update id (relabel f hid) s.messages wf.sorted)
            (λ k.
              get-update k id (relabel f hid) s.messages
              ∙ map-if (str_eq id k) (relabel f hid) (get k s.messages))
            (λ k m. ground arith) (λ k m. ground arith)

touch-IsFiled :
    (s : GmailTwinService) (wf : IsMailbox s) (id : String) (hid : ℕ)
    → IsFiled s.messages (update id (touch hid) s.threads) s.labels
touch-IsFiled s wf id hid =
    threads-IsFiled s.messages s.threads s.labels wf (update id (touch hid) s.threads)
      (IsSorted-update id (touch hid) s.threads wf.sorted_threads)
      (λ k h. ground (arith, get-update k id (touch hid) s.threads))
      λ k t e.
        let same =
          get-update k id (touch hid) s.threads
          ∙ map-if (str_eq id k) (touch hid) (get k s.threads) in
        let (u, found, made) =
          map-some (λ u. if str_eq id k then touch hid u else u) (get k s.threads) t
            (sym same ∙ e) in
        ground (arith, wf.own_threads k u found)

pub change_thread_lem :
    (f : List String → List String) (id : String) (s : GmailTwinService)
    → IsMailbox s
    → Post (λ a t. IsMailbox t) IsMailbox (change_thread f id s)
unfolding change_thread next_history
change_thread_lem f id s wf =
    continue-Post (λ m t. t ≡ s) (λ a t. IsMailbox t) IsMailbox (fetch_thread id s) _
      (ok_or-Post (λ m t. t ≡ s) IsMailbox (get id s.threads) _ s wf (λ m e. refl))
      λ m t e. rw e (go s.next_history_id)
  where
    go : (hid : ℕ) → IsMailbox (relabel_thread id f hid s)
    go hid =
        let t = record s { messages = map_values (relabel_in id f hid) s.messages } in
        touch-IsFiled t
          (each-IsFiled s wf (relabel_in id f hid) (λ m. ground arith) (λ m. ground arith)) id hid
