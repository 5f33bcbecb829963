-- ===== src/Gmail/Scenario.antt =====
-- The Gmail twin in a scenario: its seed, its assertions and its timeline actions.
use mathlib.Core.Option
use agent_sandbox.Gmail.Handle.{handle}
use agent_sandbox.Gmail.Threading.{bump_next_id}
use agent_sandbox.Common.BTreeMap.{contains_key}
use agent_sandbox.Gmail.Listing.{and_then}
use agent_sandbox.Gmail.Labels.{put_label}
use agent_sandbox.Gmail.Types.{
  LabelType, GmailTwinService, MessageFormat, GmailLabel, GmailResponse, system_label, Gmail,
  SeedMessage, Draft, GmailRequest, metadata, system, minimal, user, full,
}
use agent_sandbox.Gmail.Json.{Json, SeedLabel, json_str_or, str_field, json_str}
use agent_sandbox.Server.Runs.{AssertionResult}
use agent_sandbox.Common.{
  [], none, some, String, Result, Bool, List, if◌then◌else◌, Bytes, TwinError, ◌<>◌, Option,
  unwrap_or, str_eq, ◌∷◌, pure, true, ◌>>◌, ◌>>=◌, modify, false, ok_or, fail, operation,
}

abbrev pub type_of : String → LabelType
type_of t = if str_eq t "system" then system else user

abbrev pub seeded_label : SeedLabel → GmailLabel
seeded_label l = record (system_label l.id) { name = l.name; label_type = type_of l.label_type }

abbrev pub add_missing : Bool → GmailLabel → GmailTwinService → GmailTwinService
add_missing true l s = s
add_missing false l s = put_label l s

unfoldable pub seed_labels : List SeedLabel → GmailTwinService → GmailTwinService
seed_labels [] s = s
seed_labels (l ∷ ls) s =
    seed_labels ls (add_missing (contains_key l.id s.labels) (seeded_label l) s)

-- A result as an operation that leaves the state alone.
abbrev pub lift : {A : Type 0} → Result TwinError A → Gmail A
lift r s = (r, s)

abbrev pub message_format : String → MessageFormat
message_format t =
    if str_eq t "metadata"
    then metadata
    else if str_eq t "minimal"
    then minimal
    else if str_eq t "raw"
    then minimal
    else full

abbrev pub verdict : String → Bool → String → String → AssertionResult
verdict id passed good bad = record {
  id = id;
  passed = passed;
  message = if passed then good else bad;
}

pub record TimelineActionResult (Value : Type 0) : Type 0 where
  pub endpoint : String
  pub response : Value

-- A `match` on a text: the first case with its name, or else the last arm.
unfoldable pub choose : {A : Type 0} → String → List (String × A) → A → A
choose name [] other = other
choose name ((key, a) ∷ rest) other =
    let later = choose name rest other in if str_eq name key then a else later

module _ {Value : Type 0} (json : Json Value) (decode : String → Result String Bytes)
    (to_uppercase to_lowercase : String → String) where
  abbrev pub request : GmailRequest → Gmail GmailResponse
  request = handle decode to_uppercase to_lowercase

  unfoldable pub seed_messages : List SeedMessage → Gmail (Unit {0})
  seed_messages [] = pure tt
  seed_messages (m ∷ ms) = do request (GmailRequest.insert_message m); seed_messages ms

  abbrev pub seed_label_field : Option Value → Gmail (Unit {0})
  seed_label_field none = pure tt
  seed_label_field (some v) = do ls ← lift (json.as_labels v); modify (seed_labels ls)

  abbrev pub seed_message_field : Option Value → Gmail (Unit {0})
  seed_message_field none = pure tt
  seed_message_field (some v) = do ms ← lift (json.as_messages v); seed_messages ms

  unfoldable pub seed_from_scenario : Value → Gmail (Unit {0})
  seed_from_scenario initial_state = do
    seed_label_field (json.field initial_state "labels")
    seed_message_field (json.field initial_state "messages")
    modify bump_next_id

  abbrev pub result_of : String → GmailResponse → TimelineActionResult Value
  result_of endpoint answer = record { endpoint = endpoint; response = json.to_value answer }

  -- `self.handle(request)?`, with the endpoint of the action.
  unfoldable pub perform : String → GmailRequest → Gmail (TimelineActionResult Value)
  perform endpoint r = do answer ← request r; pure (result_of endpoint answer)

  abbrev pub texts_field : Value → String → List String
  texts_field v key = unwrap_or (and_then (json.field v key) json.as_strings) []

  abbrev pub action_draft : Value → Draft
  action_draft v = record {
    to = texts_field v "to";
    cc = [];
    bcc = [];
    subject = json_str_or json v "subject" "";
    body = json_str_or json v "body" "";
    thread_id = str_field json v "thread_id";
    attachments = [];
  }

  abbrev pub action_format : Value → MessageFormat
  action_format v = unwrap_or (Option.map message_format (str_field json v "format")) full

  abbrev pub message_url : String → String
  message_url id = "/gmail/messages/" <> id

  -- An action on the object that a field names.
  unfoldable pub perform_on :
      String
      → (String → String)
      → (String → GmailRequest)
      → Value
      → Gmail (TimelineActionResult Value)
  perform_on key url r v = do id ← lift (json_str json v key); perform (url id) (r id)

  -- The cases of `match action_type`.
  abbrev pub action_cases : String → Value → List (String × Gmail (TimelineActionResult Value))
  action_cases actor_id v =
      (
        "send_message",
        perform "/gmail/messages/send" (GmailRequest.send_message actor_id (action_draft v)),
      )
      ∷ (
        "get_message",
        perform_on "message_id" message_url (λ id. GmailRequest.get_message id (action_format v)) v,
      )
      ∷ (
        "modify_labels",
        perform_on "message_id" (λ id. message_url id <> "/labels")
            (λ id.
              GmailRequest.modify_message id (texts_field v "add_label_ids")
                (texts_field v "remove_label_ids"))
            v,
      )
      ∷ (
        "trash_message",
        perform_on "message_id" (λ id. message_url id <> "/trash") GmailRequest.trash_message v,
      )
      ∷ ("delete_message", perform_on "message_id" message_url GmailRequest.delete_message v)
      ∷ (
        "create_label",
        perform_on "name" (λ name. "/gmail/labels")
            (λ name. GmailRequest.create_label name none none) v,
      )
      ∷ (
        "delete_label",
        perform_on "label_id" (λ id. "/gmail/labels/" <> id) GmailRequest.delete_label v,
      )
      ∷ (
        "get_thread",
        perform_on "thread_id" (λ id. "/gmail/threads/" <> id)
            (λ id. GmailRequest.get_thread id full) v,
      )
      ∷ []

  unfoldable pub perform_action : String → Value → String → Gmail (TimelineActionResult Value)
  perform_action actor_id v type_name =
      choose type_name (action_cases actor_id v)
        (fail (operation ("unknown timeline action type: " <> type_name)))

  unfoldable pub execute_timeline_action : Value → String → Gmail (TimelineActionResult Value)
  execute_timeline_action action actor_id = do
    type_name ← ok_or (str_field json action "type") (operation "action missing 'type' field")
    perform_action actor_id action type_name
