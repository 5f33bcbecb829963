-- ===== src/Gmail/Labelling/Sets.antt =====
-- The labels of messages as sets: what the requests do to a list of labels, and to a mailbox, seen
-- through membership alone.
use agent_sandbox.Gmail.Threads.{modify_thread, trash_thread, untrash_thread}
use agent_sandbox.Gmail.Messages.{modify_message, trash_message, untrash_message}
use agent_sandbox.Gmail.Labelling.{
  modified, remove_labels, add_labels, retain_other, add_label, trashed, untrashed,
}
use agent_sandbox.Gmail.Types.{Gmail, GmailResponse}
use agent_sandbox.Common.{
  [], List, String, contains, Bool, ◌≡◌, ◌||◌, ◌&&◌, ◌∙◌, str_eq, ◌∷◌, Bool-cases, arith, not, ap,
  eq_iff, refl, inl, inr, contains-append,
}

-- The three changes of labels that a request asks for.
pub data Change : Type 0 where
  modify : List String → List String → Change
  trash untrash : Change

abbrev pub labels_as : Change → List String → List String
labels_as (Change.modify add remove) = modified add remove
labels_as Change.trash = trashed
labels_as Change.untrash = untrashed

-- Whether a label is on a message after the change, from whether it was there before.
abbrev pub has_after : Change → String → Bool → Bool
has_after (Change.modify add remove) l before =
    contains l add || (before && not (contains l remove))
has_after Change.trash l before = (str_eq "TRASH" l || before) && not (str_eq "INBOX" l)
has_after Change.untrash l before = str_eq "INBOX" l || (before && not (str_eq "TRASH" l))

abbrev pub change_message : Change → String → Gmail GmailResponse
change_message (Change.modify add remove) id = modify_message id add remove
change_message Change.trash id = trash_message id
change_message Change.untrash id = untrash_message id

abbrev pub change_messages : Change → String → Gmail GmailResponse
change_messages (Change.modify add remove) id = modify_thread id add remove
change_messages Change.trash id = trash_thread id
change_messages Change.untrash id = untrash_thread id

module _ (l : String) where
  pub contains-retain_other :
      (r : String) (ls : List String)
      → contains l (retain_other r ls) ≡ (contains l ls && not (str_eq r l))
  contains-retain_other r [] = refl
  contains-retain_other r (k ∷ ks) =
      ground (arith, eq_iff k l, eq_iff k r, eq_iff r l, contains-retain_other r ks)

  contains-add_label :
      (a : String) (ls : List String) → contains l (add_label a ls) ≡ (str_eq a l || contains l ls)
  contains-add_label a ls = elim (Bool-cases (contains a ls)) [
    | inl there ↦ rw there (ground (arith, eq_iff a l))
    | inr new ↦ rw new (ground (arith, contains-append l ls (a ∷ [])))
  ]

  contains-remove_labels :
      (rs ls : List String)
      → contains l (remove_labels rs ls) ≡ (contains l ls && not (contains l rs))
  unfolding remove_labels
  contains-remove_labels [] ls = ground arith
  contains-remove_labels (r ∷ rs) ls =
      contains-remove_labels rs (retain_other r ls) ∙ ground (arith, contains-retain_other r ls)

  contains-add_labels :
      (added ls : List String)
      → contains l (add_labels added ls) ≡ (contains l added || contains l ls)
  unfolding add_labels
  contains-add_labels [] ls = refl
  contains-add_labels (a ∷ added) ls =
      contains-add_labels added (add_label a ls) ∙ ground (arith, contains-add_label a ls)

  pub contains-labels_as :
      (c : Change) (ls : List String) → contains l (labels_as c ls) ≡ has_after c l (contains l ls)
  contains-labels_as (Change.modify add remove) ls =
      contains-add_labels add (remove_labels remove ls)
      ∙ ap (λ b. contains l add || b) (contains-remove_labels remove ls)
  contains-labels_as Change.trash ls =
      contains-retain_other "INBOX" (add_label "TRASH" ls)
      ∙ ap (λ b. b && not (str_eq "INBOX" l)) (contains-add_label "TRASH" ls)
  contains-labels_as Change.untrash ls =
      contains-add_label "INBOX" (retain_other "TRASH" ls)
      ∙ ap (λ b. str_eq "INBOX" l || b) (contains-retain_other "TRASH" ls)
