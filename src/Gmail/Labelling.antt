-- ===== src/Gmail/Labelling.antt =====
-- The lists of labels on messages, as the requests change them.
pub mod Sets
pub mod Views
pub mod Deleted
use mathlib.Core.List.{◌++◌}
use agent_sandbox.Gmail.Types.{GmailMessage}
use agent_sandbox.Common.{[], String, contains, List, filter, ℕ, if◌then◌else◌, ◌∷◌, not, str_eq}

-- `label_ids.retain(|l| l != lid)`
abbrev pub retain_other : String → List String → List String
retain_other l labels = filter (λ k. not (str_eq k l)) labels

-- `if !label_ids.contains(lid) { label_ids.push(lid) }`
abbrev pub add_label : String → List String → List String
add_label l labels = if contains l labels then labels else labels ++ (l ∷ [])

unfoldable pub remove_labels : List String → List String → List String
remove_labels [] labels = labels
remove_labels (l ∷ ls) labels = remove_labels ls (retain_other l labels)

unfoldable pub add_labels : List String → List String → List String
add_labels [] labels = labels
add_labels (l ∷ ls) labels = add_labels ls (add_label l labels)

-- What the requests `modify`, `trash` and `untrash` make of a message's labels.
abbrev pub modified : List String → List String → List String → List String
modified add remove labels = add_labels add (remove_labels remove labels)

abbrev pub trashed : List String → List String
trashed labels = retain_other "INBOX" (add_label "TRASH" labels)

abbrev pub untrashed : List String → List String
untrashed labels = add_label "INBOX" (retain_other "TRASH" labels)

abbrev pub relabel : (List String → List String) → ℕ → GmailMessage → GmailMessage
relabel f hid m = record m { label_ids = f m.label_ids; history_id = hid }
