-- ===== src/Gmail/Mailbox/Default.antt =====
-- A new mailbox is well filed.
use agent_sandbox.Common.BTreeMap.Order.{IsSorted, IsSorted-insert}
use agent_sandbox.Gmail.Mailbox.{IsMailbox, IsFiled}
use agent_sandbox.Common.BTreeMap.{get, BTreeMap, insert, get-insert, get-nil}
use agent_sandbox.Gmail.Types.{
  insert_system, default_mailbox, system_labels, GmailLabel, system_label,
}
use agent_sandbox.Common.{
  [], ◌∷◌, some, arith, ◌∙◌, String, List, ◌≡◌, if◌then◌else◌, contains, refl, eq_iff, true,
}

get-insert_system :
    (k : String) (ids : List String) (labels : BTreeMap GmailLabel)
    → get k (insert_system ids labels)
      ≡ (if contains k ids then some (system_label k) else get k labels)
unfolding insert_system
get-insert_system k [] labels = refl
get-insert_system k (id ∷ ids) labels =
    get-insert_system k ids (insert id (system_label id) labels)
    ∙ ground (arith, get-insert k id (system_label id) labels, eq_iff id k)

-- The system labels alone: each is there, and each under its own identifier.
insert_system-kept :
    (ids : List String) (id : String)
    → contains id ids ≡ true
    → get id (insert_system ids []) ≡ some (system_label id)
insert_system-kept ids id h = get-insert_system id ids [] ∙ rw h refl

insert_system-own :
    (ids : List String) (k : String) (l : GmailLabel)
    → get k (insert_system ids []) ≡ some l
    → l.id ≡ k
insert_system-own ids k l e = ground (arith, get-insert_system k ids [], get-nil {V = GmailLabel} k)

get-absent : {V : Type 0} (k : String) (v : V) → get k [] ≡ some v → ⊥
get-absent {V = V} k v e = absurd (ground (arith, get-nil {V = V} k))

insert_system-IsSorted :
    (ids : List String) (labels : BTreeMap GmailLabel)
    → IsSorted labels
    → IsSorted (insert_system ids labels)
unfolding insert_system
insert_system-IsSorted [] labels h = h
insert_system-IsSorted (id ∷ ids) labels h =
    insert_system-IsSorted ids (insert id (system_label id) labels)
      (IsSorted-insert id (system_label id) labels h)

empty-IsFiled :
    (ids : List String)
    → ((id : String)
        → contains id system_labels ≡ true
        → get id (insert_system ids []) ≡ some (system_label id))
    → IsFiled [] [] (insert_system ids [])
empty-IsFiled ids kept = record {
  sorted = tt;
  sorted_threads = tt;
  sorted_labels = insert_system-IsSorted ids [] tt;
  own_messages = λ k m e. absurd (get-absent k m e);
  own_threads = λ k t e. absurd (get-absent k t e);
  own_labels = insert_system-own ids;
  threaded = λ k m e. absurd (get-absent k m e);
  kept = kept;
}

pub default_mailbox-IsMailbox : IsMailbox default_mailbox
unfolding default_mailbox
default_mailbox-IsMailbox = empty-IsFiled system_labels (insert_system-kept system_labels)
