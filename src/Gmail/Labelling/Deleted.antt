-- ===== src/Gmail/Labelling/Deleted.antt =====
-- A deleted label against the view of which labels are on which message.
use agent_sandbox.Gmail.Labelling.Sets.{contains-retain_other}
use agent_sandbox.Common.BTreeMap.{get, get-remove, get-map_values}
use agent_sandbox.Gmail.Labelling.Views.{has, view}
use agent_sandbox.Gmail.Types.{GmailLabel, GmailMessage, GmailTwinService, GmailResponse}
use agent_sandbox.Gmail.Labels.{delete_label, without_label, is_user}
use mathlib.Core.Option
use agent_sandbox.Common.{
  none, some, String, Option, ◌≡◌, ◌&&◌, not, true, ok, str_eq, if◌then◌else◌, refl, false, err,
  operation, ap, ◌∙◌,
}

has-without_label :
    (id l : String) (o : Option GmailMessage)
    → has l (Option.map (without_label id) o) ≡ (has l o && not (str_eq id l))
has-without_label id l none = refl
has-without_label id l (some m) = contains-retain_other l id m.label_ids

-- Deleting a label that a user made succeeds; it is gone from the labels and from every message, and
-- all other labels stay, on the messages too. A system label is refused and nothing changes.
pub delete_label_cases :
    (id : String) (l : GmailLabel) (s : GmailTwinService)
    → get id s.labels ≡ some l
    → (is_user l ≡ true
        → ((delete_label id s).0 ≡ ok GmailResponse.deleted)
          × ((k : String)
              → get k (delete_label id s).1.labels ≡ (if str_eq id k then none else get k s.labels))
          × ((k j : String) → view (delete_label id s).1 k j ≡ (view s k j && not (str_eq id j))))
      × (is_user l ≡ false → delete_label id s ≡ (err (operation "cannot delete system label"), s))
unfolding delete_label
delete_label_cases id l s found = (
  (λ user.
      rw (found, user)
        (
          refl,
          (λ k. get-remove k id s.labels),
          λ k j.
              ap (has j) (get-map_values k (without_label id) s.messages)
              ∙ has-without_label id j (get k s.messages),
        )),
  (λ system. rw (found, system) refl),
)
