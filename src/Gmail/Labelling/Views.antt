-- ===== src/Gmail/Labelling/Views.antt =====
-- The requests that change labels against a view of the mailbox that knows only which labels are on
-- which message.
use agent_sandbox.Gmail.Labelling.{relabel}
use agent_sandbox.Gmail.Messages.{change_labels, modify_message, trash_message, untrash_message}
use agent_sandbox.Gmail.Threading.{in_thread, next_history}
use agent_sandbox.Gmail.Threads.{
  relabel_in, change_thread, modify_thread, trash_thread, untrash_thread,
}
use agent_sandbox.Common.BTreeMap.{get, is_some, get-update, get-map_values}
use agent_sandbox.Gmail.Labelling.Sets.{
  Change, labels_as, has_after, change_message, contains-labels_as, change_messages,
}
use agent_sandbox.Gmail.Types.{GmailTwinService, GmailMessage, GmailThread}
use mathlib.Core.Option
use agent_sandbox.Common.{
  none, some, String, Option, Bool, ℕ, ◌≡◌, if◌then◌else◌, false, true, contains, Bool-cases,
  str_eq, arith, refl, inl, ap, inr, ◌∙◌, eq_iff,
}

-- Whether the label is on the message.
abbrev pub has : String → Option GmailMessage → Bool
has l none = false
has l (some m) = contains l m.label_ids

abbrev pub LabelView : Type 0
LabelView = String → String → Bool

abbrev pub view : GmailTwinService → LabelView
view s k l = has l (get k s.messages)

abbrev pub is_in : String → Option GmailMessage → Bool
is_in id none = false
is_in id (some m) = in_thread id m

-- What a change does to the view, on the messages that the test picks out.
abbrev pub changed : Change → (String → Bool) → LabelView → LabelView
changed c chosen v k l = if chosen k then has_after c l (v k l) else v k l

module _ (c : Change) (l : String) (hid : ℕ) where
  has-relabel :
      (o : Option GmailMessage)
      → is_some o ≡ true
      → has l (Option.map (relabel (labels_as c) hid) o) ≡ has_after c l (has l o)
  has-relabel none h = absurd (ground arith)
  has-relabel (some m) h = contains-labels_as l c m.label_ids

  has-relabel_in :
      (id : String) (o : Option GmailMessage)
      → has l (Option.map (relabel_in id (labels_as c) hid) o)
        ≡ (if is_in id o then has_after c l (has l o) else has l o)
  has-relabel_in id none = refl
  has-relabel_in id (some m) = elim (Bool-cases (in_thread id m)) [
    | inl there ↦ rw there (contains-labels_as l c m.label_ids)
    | inr other ↦ rw other refl
  ]

module _ (c : Change) (id : String) (s : GmailTwinService) where
  change_labels-view :
      (m : GmailMessage)
      → get id s.messages ≡ some m
      → (k l : String)
      → view (change_labels (labels_as c) id s).1 k l ≡ changed c (str_eq id) (view s) k l
  unfolding change_labels next_history
  change_labels-view m found k l = rw found (elim (Bool-cases (str_eq id k)) [
    | inl same ↦
        ap (has l) (get-update k id (relabel (labels_as c) s.next_history_id) s.messages)
        ∙ rw same (
            has-relabel c l s.next_history_id (get k s.messages)
              (ground (arith, eq_iff id k, found)))
    | inr other ↦
        ap (has l) (get-update k id (relabel (labels_as c) s.next_history_id) s.messages)
        ∙ rw other refl
  ])

  change_thread-view :
      (t : GmailThread)
      → get id s.threads ≡ some t
      → (k l : String)
      → view (change_thread (labels_as c) id s).1 k l
        ≡ changed c (λ j. is_in id (get j s.messages)) (view s) k l
  unfolding change_thread next_history
  change_thread-view t found k l = rw found (
      ap (has l) (get-map_values k (relabel_in id (labels_as c) s.next_history_id) s.messages)
      ∙ has-relabel_in c l s.next_history_id id (get k s.messages))

change_message-labels :
    (c : Change) (id : String) → change_message c id ≡ change_labels (labels_as c) id
unfolding modify_message trash_message untrash_message
change_message-labels (Change.modify add remove) id = refl
change_message-labels Change.trash id = refl
change_message-labels Change.untrash id = refl

change_messages-labels :
    (c : Change) (id : String) → change_messages c id ≡ change_thread (labels_as c) id
unfolding modify_thread trash_thread untrash_thread
change_messages-labels (Change.modify add remove) id = refl
change_messages-labels Change.trash id = refl
change_messages-labels Change.untrash id = refl

-- Modifying, trashing or untrashing a message that is there puts labels on this message and takes
-- labels off it as a set of labels would have it, whatever their order and repetition in the list,
-- and leaves the labels of every other message alone.
pub change_message-view :
    (c : Change) (id : String) (m : GmailMessage) (s : GmailTwinService)
    → get id s.messages ≡ some m
    → (k l : String) → view (change_message c id s).1 k l ≡ changed c (str_eq id) (view s) k l
change_message-view c id m s found k l =
    rw (change_message-labels c id) (change_labels-view c id s m found k l)

-- Modifying, trashing or untrashing a thread that is there does the same to the labels of every
-- message in the thread, and to no other message.
pub change_messages-view :
    (c : Change) (id : String) (t : GmailThread) (s : GmailTwinService)
    → get id s.threads ≡ some t
    → (k l : String)
    → view (change_messages c id s).1 k l
      ≡ changed c (λ j. is_in id (get j s.messages)) (view s) k l
change_messages-view c id t s found k l =
    rw (change_messages-labels c id) (change_thread-view c id s t found k l)
