-- ===== src/Gmail/Types.antt =====
-- The data of the Gmail twin: messages, threads, labels, requests and responses, and the state.
use agent_sandbox.Common.BTreeMap.{BTreeMap, insert}
use agent_sandbox.Common.{
  [], none, Op, Option, List, String, Bytes, ℕ, ◌∷◌, TwinError, ◌∷◌, operation, ◌<>◌,
}

pub record AttachmentRef : Type 0 where
  pub attachment_id : String
  pub filename : String
  pub mime_type : String
  pub size : ℕ

pub record GmailMessage : Type 0 where
  pub id : String
  pub thread_id : String
  pub label_ids : List String
  pub from : String
  pub to : List String
  pub cc : List String
  pub bcc : List String
  pub subject : String
  pub body_text : Option String
  pub body_html : Option String
  pub snippet : String
  pub internal_date : ℕ
  pub size_estimate : ℕ
  pub attachments : List AttachmentRef
  pub history_id : ℕ

pub record GmailThread : Type 0 where
  pub id : String
  pub history_id : ℕ
  pub snippet : String

pub data LabelType : Type 0 where
  system user : LabelType

pub data Visibility : Type 0 where
  show hide : Visibility

pub data LabelVisibility : Type 0 where
  label_show label_show_if_unread label_hide : LabelVisibility

pub record LabelColor : Type 0 where
  pub text_color : String
  pub background_color : String

pub record GmailLabel : Type 0 where
  pub id : String
  pub name : String
  pub label_type : LabelType
  pub message_list_visibility : Visibility
  pub label_list_visibility : LabelVisibility
  pub color : Option LabelColor

pub data MessageFormat : Type 0 where
  full metadata minimal : MessageFormat

pub record SeedAttachment : Type 0 where
  pub attachment_id : Option String
  pub filename : String
  pub mime_type : String
  pub content : String

pub record SeedMessage : Type 0 where
  pub id : String
  pub thread_id : String
  pub from : String
  pub to : List String
  pub cc : Option (List String)
  pub bcc : Option (List String)
  pub subject : String
  pub body : Option String
  pub body_html : Option String
  pub label_ids : List String
  pub timestamp_ms : Option ℕ
  pub attachments : List SeedAttachment

-- The fields of `SendMessage` after the actor; an attachment is a name, a type and the bytes.
pub record Draft : Type 0 where
  pub to : List String
  pub cc : List String
  pub bcc : List String
  pub subject : String
  pub body : String
  pub thread_id : Option String
  pub attachments : List (String × String × Bytes)

-- The actor first, where the code reads it (`send_message` and `get_profile`); the other requests
-- ignore theirs. The identifier of what the request is about comes next.
pub data GmailRequest : Type 0 where
  list_messages : List String → ℕ → Option String → Option String → GmailRequest
  get_message : String → MessageFormat → GmailRequest
  send_message : String → Draft → GmailRequest
  insert_message : SeedMessage → GmailRequest
  modify_message modify_thread : String → List String → List String → GmailRequest
  trash_message untrash_message delete_message : String → GmailRequest
  list_threads : List String → ℕ → Option String → GmailRequest
  get_thread : String → MessageFormat → GmailRequest
  trash_thread untrash_thread delete_thread : String → GmailRequest
  list_labels : GmailRequest
  get_label delete_label : String → GmailRequest
  create_label : String → Option String → Option String → GmailRequest
  update_label : String → Option String → Option String → Option String → GmailRequest
  get_attachment : String → String → GmailRequest
  get_profile : String → GmailRequest

pub record ThreadSummary : Type 0 where
  pub id : String
  pub snippet : String
  pub history_id : ℕ

pub data GmailResponse : Type 0 where
  message : GmailMessage → GmailResponse
  message_list : List (String × String) → Option String → ℕ → GmailResponse
  thread : GmailThread → List GmailMessage → GmailResponse
  thread_list : List ThreadSummary → Option String → ℕ → GmailResponse
  label : GmailLabel → GmailResponse
  label_list : List GmailLabel → GmailResponse
  attachment : Bytes → ℕ → GmailResponse
  profile : String → ℕ → ℕ → ℕ → GmailResponse
  ok deleted : GmailResponse

pub record GmailTwinService : Type 0 where
  pub messages : BTreeMap GmailMessage
  pub threads : BTreeMap GmailThread
  pub labels : BTreeMap GmailLabel
  pub attachments : BTreeMap Bytes
  pub next_id : ℕ
  pub next_history_id : ℕ

abbrev pub system_label : String → GmailLabel
system_label id = record {
  id = id;
  name = id;
  label_type = system;
  message_list_visibility = show;
  label_list_visibility = label_show;
  color = none;
}

-- `system_labels`, in the source's order.
abbrev pub system_labels : List String
system_labels =
    "INBOX" ∷ "SENT" ∷ "DRAFT" ∷ "TRASH" ∷ "SPAM" ∷ "UNREAD" ∷ "STARRED" ∷ "IMPORTANT"
    ∷ "CATEGORY_PERSONAL" ∷ "CATEGORY_SOCIAL" ∷ "CATEGORY_PROMOTIONS" ∷ "CATEGORY_UPDATES"
    ∷ "CATEGORY_FORUMS" ∷ []

unfoldable pub insert_system : List String → BTreeMap GmailLabel → BTreeMap GmailLabel
insert_system [] labels = labels
insert_system (id ∷ ids) labels = insert_system ids (insert id (system_label id) labels)

-- `GmailTwinService::default()`
unfoldable pub default_mailbox : GmailTwinService
unfolding insert_system
default_mailbox = record {
  messages = [];
  threads = [];
  labels = insert_system system_labels [];
  attachments = [];
  next_id = 1;
  next_history_id = 1;
}

abbrev pub Gmail : Type 0 → Type 0
Gmail A = Op TwinError GmailTwinService A

abbrev pub not_found : String → String → TwinError
not_found what id = operation (what <> " not found: " <> id)
