-- ===== src/Gmail/Json.antt =====
-- What the twin asks of `serde_json` (a library): the fields of a value, and values as texts, numbers,
-- lists of texts and seeds.
use agent_sandbox.Gmail.Types.{SeedMessage, GmailResponse}
use agent_sandbox.Gmail.Listing.{and_then}
use agent_sandbox.Common.{
  String, ℕ, List, Option, none, some, Result, ok, TwinError, operation, err, unwrap_or, ◌<>◌,
}

pub record SeedLabel : Type 0 where
  pub id : String
  pub name : String
  pub label_type : String

pub record Json (Value : Type 0) : Type 0 where
  pub field : Value → String → Option Value
  pub as_str : Value → Option String
  pub as_u64 : Value → Option ℕ
  pub as_strings : Value → Option (List String)
  pub as_labels : Value → Result TwinError (List SeedLabel)
  pub as_messages : Value → Result TwinError (List SeedMessage)
  pub to_value : GmailResponse → Value

module _ {Value : Type 0} (json : Json Value) where
  abbrev pub str_field : Value → String → Option String
  str_field v key = and_then (json.field v key) json.as_str

  abbrev pub missing_or : String → Option String → Result TwinError String
  missing_or key none = err (operation ("missing field '" <> key <> "'"))
  missing_or key (some t) = ok t

  unfoldable pub json_str : Value → String → Result TwinError String
  json_str v key = missing_or key (str_field v key)

  unfoldable pub json_str_or : Value → String → String → String
  json_str_or v key default = unwrap_or (str_field v key) default
