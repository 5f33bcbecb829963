-- ===== src/Gmail/Mailbox.antt =====
-- A mailbox is well filed: its messages, threads and labels are in order, every entry stands under its own identifier, every
-- message has its thread, and the system labels are there.
pub mod Filing
pub mod Arriving
pub mod Changing
pub mod Deleting
pub mod Members
pub mod Emptying
pub mod Naming
pub mod Handling
pub mod Default
use agent_sandbox.Gmail.Threading.{in_thread}
use agent_sandbox.Common.BTreeMap.Order.{IsSorted, IsSorted-insert, IsSorted-remove}
use agent_sandbox.Common.BTreeMap.{
  BTreeMap, contains_key, get, insert, remove, get-remove, get-insert,
}
use agent_sandbox.Gmail.Types.{
  GmailTwinService, GmailMessage, GmailThread, GmailLabel, system_labels, system_label,
}
use agent_sandbox.Common.{some, String, ◌≡◌, contains, ◌∙◌, true, false, arith, eq_iff}

pub record IsFiled (messages : BTreeMap GmailMessage) (threads : BTreeMap GmailThread)
    (labels : BTreeMap GmailLabel) : Type 0 where
  pub sorted : IsSorted messages
  pub sorted_threads : IsSorted threads
  pub sorted_labels : IsSorted labels
  pub own_messages : (k : String) (m : GmailMessage) → get k messages ≡ some m → m.id ≡ k
  pub own_threads : (k : String) (t : GmailThread) → get k threads ≡ some t → t.id ≡ k
  pub own_labels : (k : String) (l : GmailLabel) → get k labels ≡ some l → l.id ≡ k
  pub threaded :
      (k : String) (m : GmailMessage)
      → get k messages ≡ some m
      → contains_key m.thread_id threads ≡ true
  pub kept :
      (id : String) → contains id system_labels ≡ true → get id labels ≡ some (system_label id)

abbrev pub IsMailbox : GmailTwinService → Type 0
IsMailbox s = IsFiled s.messages s.threads s.labels

module _ (messages : BTreeMap GmailMessage) (threads : BTreeMap GmailThread)
    (labels : BTreeMap GmailLabel) (wf : IsFiled messages threads labels) where
  -- A message is filed in a thread that exists.
  pub insert-IsFiled :
      (m : GmailMessage)
      → contains_key m.thread_id threads ≡ true
      → IsFiled (insert m.id m messages) threads labels
  insert-IsFiled m there = record {
    sorted = IsSorted-insert m.id m messages wf.sorted;
    sorted_threads = wf.sorted_threads;
    sorted_labels = wf.sorted_labels;
    own_messages =
        λ k n e. ground (arith, get-insert k m.id m messages, eq_iff m.id k, wf.own_messages k n);
    own_threads = wf.own_threads;
    own_labels = wf.own_labels;
    threaded = λ k n e.
        ground (arith, get-insert k m.id m messages, eq_iff m.id k, wf.threaded k n, there);
    kept = wf.kept;
  }

  -- Messages may go, and may change in all but identifier and thread.
  pub narrow-IsFiled :
      (fewer : BTreeMap GmailMessage)
      → IsSorted fewer
      → ((k : String) (n : GmailMessage)
          → get k fewer ≡ some n
          → (m : GmailMessage) × (get k messages ≡ some m)
            × (n.id ≡ m.id)
            × (n.thread_id ≡ m.thread_id))
      → IsFiled fewer threads labels
  narrow-IsFiled fewer sorted from = record {
    sorted = sorted;
    sorted_threads = wf.sorted_threads;
    sorted_labels = wf.sorted_labels;
    own_messages =
        λ k n e. let (m, found, same, _) = from k n e in same ∙ wf.own_messages k m found;
    own_threads = wf.own_threads;
    own_labels = wf.own_labels;
    threaded = λ k n e. let (m, found, _, same) = from k n e in rw same (wf.threaded k m found);
    kept = wf.kept;
  }

  -- Threads may come, and change in all but their identifier.
  pub threads-IsFiled :
      (more : BTreeMap GmailThread)
      → IsSorted more
      → ((k : String) → contains_key k threads ≡ true → contains_key k more ≡ true)
      → ((k : String) (t : GmailThread) → get k more ≡ some t → t.id ≡ k)
      → IsFiled messages more labels
  threads-IsFiled more ordered grown own = record {
    sorted = wf.sorted;
    sorted_threads = ordered;
    sorted_labels = wf.sorted_labels;
    own_messages = wf.own_messages;
    own_threads = own;
    own_labels = wf.own_labels;
    threaded = λ k m e. grown m.thread_id (wf.threaded k m e);
    kept = wf.kept;
  }

  -- A thread without messages may go.
  pub remove_thread-IsFiled :
      (tid : String)
      → ((k : String) (m : GmailMessage) → get k messages ≡ some m → in_thread tid m ≡ false)
      → IsFiled messages (remove tid threads) labels
  remove_thread-IsFiled tid empty = record {
    sorted = wf.sorted;
    sorted_threads = IsSorted-remove tid threads wf.sorted_threads;
    sorted_labels = wf.sorted_labels;
    own_messages = wf.own_messages;
    own_threads = λ k t e. ground (arith, get-remove k tid threads, wf.own_threads k t);
    own_labels = wf.own_labels;
    threaded = λ k m e. ground (
      arith,
      get-remove m.thread_id tid threads,
      wf.threaded k m e,
      empty k m e,
      eq_iff tid m.thread_id,
      eq_iff m.thread_id tid,
    );
    kept = wf.kept;
  }

  pub labels-IsFiled :
      (others : BTreeMap GmailLabel)
      → IsSorted others
      → ((k : String) (l : GmailLabel) → get k others ≡ some l → l.id ≡ k)
      → ((id : String) → contains id system_labels ≡ true → get id others ≡ get id labels)
      → IsFiled messages threads others
  labels-IsFiled others ordered own same = record {
    sorted = wf.sorted;
    sorted_threads = wf.sorted_threads;
    sorted_labels = ordered;
    own_messages = wf.own_messages;
    own_threads = wf.own_threads;
    own_labels = own;
    threaded = wf.threaded;
    kept = λ id h. same id h ∙ wf.kept id h;
  }
