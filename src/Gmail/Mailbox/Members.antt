-- ===== src/Gmail/Mailbox/Members.antt =====
-- The messages of a thread by their identifiers.
use agent_sandbox.Common.BTreeMap.Search.{get-tail}
use agent_sandbox.Common.BTreeMap.Order.{IsAbove, IsSorted, get_of_above}
use agent_sandbox.Gmail.Types.{GmailTwinService, GmailMessage, AttachmentRef}
use agent_sandbox.Gmail.Messages.{remove_attachments}
use agent_sandbox.Gmail.Threads.{drop_messages, drop_message, message_ids}
use agent_sandbox.Common.BTreeMap.{BTreeMap, get, values, remove, get-remove}
use agent_sandbox.Common.{
  none, some, String, Option, ◌≡◌, List, if◌then◌else◌, Bool, ◌∷◌, str_eq, arith, ◌∙◌, contains,
  refl, [], eq_iff, eq_refl, ap, filter, false,
}

abbrev pub OwnIds : BTreeMap GmailMessage → Type 0
OwnIds ms = (k : String) (m : GmailMessage) → get k ms ≡ some m → m.id ≡ k

module _ (j : String) (w : GmailMessage) (ms : BTreeMap GmailMessage) (above : IsAbove j ms)
    (own : OwnIds ((j, w) ∷ ms)) where
  head_id : w.id ≡ j
  unfolding get
  head_id = own j w (ground (arith, eq_refl j))

  tail_ids : OwnIds ms
  tail_ids k m e = own k m (get-tail j k m w ms above e)

contains-absent :
    (p : GmailMessage → Bool) (k : String) (ms : BTreeMap GmailMessage)
    → IsSorted ms
    → OwnIds ms
    → get k ms ≡ none
    → contains k (message_ids (filter p (values ms))) ≡ false
unfolding get values
contains-absent p k [] sorted own e = refl
contains-absent p k ((j, w) ∷ ms) (above, sorted) own e = ground (
  arith,
  eq_iff j k,
  eq_iff w.id k,
  head_id j w ms above own,
  contains-absent p k ms sorted (tail_ids j w ms above own),
)

-- An entry is among those that a test picks out where the test holds of it.
pub contains-message_ids :
    (p : GmailMessage → Bool) (k : String) (m : GmailMessage) (ms : BTreeMap GmailMessage)
    → IsSorted ms
    → OwnIds ms
    → get k ms ≡ some m
    → contains k (message_ids (filter p (values ms))) ≡ p m
unfolding get values
contains-message_ids p k m [] sorted own e = absurd (ground arith)
contains-message_ids p k m ((j, w) ∷ ms) (above, sorted) own e = ground (
  arith,
  eq_iff j k,
  eq_iff w.id k,
  head_id j w ms above own,
  get_of_above j ms above,
  contains-absent p j ms sorted (tail_ids j w ms above own),
  contains-message_ids p k m ms sorted (tail_ids j w ms above own),
)

-- What a removal of attachments leaves alone.
abbrev IsRest : GmailTwinService → GmailTwinService → Type 0
IsRest t s = (t.messages ≡ s.messages) × (t.threads ≡ s.threads) × (t.labels ≡ s.labels)

remove_attachments-IsRest :
    (refs : List AttachmentRef) (s : GmailTwinService) → IsRest (remove_attachments refs s) s
unfolding remove_attachments
remove_attachments-IsRest [] s = (refl, refl, refl)
remove_attachments-IsRest (a ∷ rest) s =
    remove_attachments-IsRest rest (record s { attachments = remove a.attachment_id s.attachments })

drop_message-get :
    (k id : String) (s : GmailTwinService)
    → get k (drop_message id (get id s.messages) s).messages
      ≡ (if str_eq id k then none else get k s.messages)
drop_message-get k id s = go (get id s.messages) refl
  where
    go :
        (o : Option GmailMessage)
        → get id s.messages ≡ o
        → get k (drop_message id o s).messages ≡ (if str_eq id k then none else get k s.messages)
    go none e = ground (arith, eq_iff id k)
    go (some m) e =
        ap (get k)
          (remove_attachments-IsRest m.attachments (record s { messages = remove id s.messages })).0
        ∙ get-remove k id s.messages

drop_message-rest :
    (id : String) (o : Option GmailMessage) (s : GmailTwinService)
    → ((drop_message id o s).threads ≡ s.threads) × ((drop_message id o s).labels ≡ s.labels)
drop_message-rest id none s = (refl, refl)
drop_message-rest id (some m) s =
    let (_, threads, labels) =
      remove_attachments-IsRest m.attachments (record s { messages = remove id s.messages }) in
    (threads, labels)

pub drop_messages-get :
    (k : String) (ids : List String) (s : GmailTwinService)
    → get k (drop_messages ids s).messages ≡ (if contains k ids then none else get k s.messages)
unfolding drop_messages
drop_messages-get k [] s = refl
drop_messages-get k (id ∷ ids) s =
    let t = drop_message id (get id s.messages) s in
    drop_messages-get k ids t ∙ ground (arith, drop_message-get k id s)

pub drop_messages-rest :
    (ids : List String) (s : GmailTwinService)
    → ((drop_messages ids s).threads ≡ s.threads) × ((drop_messages ids s).labels ≡ s.labels)
unfolding drop_messages
drop_messages-rest [] s = (refl, refl)
drop_messages-rest (id ∷ ids) s =
    let t = drop_message id (get id s.messages) s in
    let (threads, labels) = drop_messages-rest ids t in
    let (same_threads, same_labels) = drop_message-rest id (get id s.messages) s in
    (threads ∙ same_threads, labels ∙ same_labels)
