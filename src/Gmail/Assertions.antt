-- ===== src/Gmail/Assertions.antt =====
-- The assertions of the Gmail twin. They read the state and leave it alone.
use agent_sandbox.Gmail.Threads.{thread_messages}
use agent_sandbox.Common.BTreeMap.{contains_key}
use agent_sandbox.Gmail.Listing.{and_then}
use agent_sandbox.Gmail.Messages.{fetch_message}
use agent_sandbox.Gmail.Scenario.{lift, verdict, choose}
use agent_sandbox.Server.Runs.{AssertionResult}
use agent_sandbox.Gmail.Types.{Gmail}
use agent_sandbox.Gmail.Json.{Json, json_str, str_field}
use agent_sandbox.Common.{
  String, ℕ, ◌<>◌, ◌>>=◌, gets, to_string, ok_or, fail, pure, operation, contains, unwrap_or, not,
  length, ◌==◌, List, ◌∷◌, [],
}

module _ {Value : Type 0} (json : Json Value) where
  abbrev pub text_of : Value → String → Gmail String
  text_of v key = lift (json_str json v key)

  unfoldable pub check_message_exists : String → Value → Gmail AssertionResult
  check_message_exists id v = do
    m ← text_of v "message_id"
    exists ← gets (λ s. contains_key m s.messages)
    pure (verdict id exists ("message " <> m <> " exists") ("message " <> m <> " not found"))

  unfoldable pub check_has_label : String → Value → Gmail AssertionResult
  check_has_label id v = do
    mid ← text_of v "message_id"
    l ← text_of v "label_id"
    m ← fetch_message mid
    pure (
        verdict id (contains l m.label_ids) ("message " <> mid <> " has label " <> l)
          ("message " <> mid <> " does not have label " <> l))

  unfoldable pub check_not_has_label : String → Value → Gmail AssertionResult
  check_not_has_label id v = do
    mid ← text_of v "message_id"
    l ← text_of v "label_id"
    m ← fetch_message mid
    pure (
        verdict id (not (contains l m.label_ids))
          ("message " <> mid <> " does not have label " <> l)
          ("message " <> mid <> " unexpectedly has label " <> l))

  unfoldable pub check_label_exists : String → Value → Gmail AssertionResult
  check_label_exists id v = do
    l ← text_of v "label_id"
    exists ← gets (λ s. contains_key l s.labels)
    pure (verdict id exists ("label " <> l <> " exists") ("label " <> l <> " not found"))

  abbrev pub count_text : String → ℕ → ℕ → String
  count_text tid actual expected =
      "thread "
      <> tid
      <> " has "
      <> to_string actual
      <> " messages (expected "
      <> to_string expected
      <> ")"

  unfoldable pub check_thread_message_count : String → Value → Gmail AssertionResult
  check_thread_message_count id v = do
    tid ← text_of v "thread_id"
    expected ←
        ok_or (and_then (json.field v "count") json.as_u64)
          (operation "assertion missing 'count' field")
    actual ← gets (λ s. length (thread_messages tid s))
    pure (
        verdict id (actual == expected) (count_text tid actual expected)
          (count_text tid actual expected))

  unfoldable pub check_in_trash : String → Value → Gmail AssertionResult
  check_in_trash id v = do
    mid ← text_of v "message_id"
    m ← fetch_message mid
    pure (
        verdict id (contains "TRASH" m.label_ids) ("message " <> mid <> " is in trash")
          ("message " <> mid <> " is not in trash"))

  -- The cases of `match check_type`.
  abbrev pub check_cases : String → Value → List (String × Gmail AssertionResult)
  check_cases id v =
      ("message_exists", check_message_exists id v)
      ∷ ("message_has_label", check_has_label id v)
      ∷ ("message_not_has_label", check_not_has_label id v)
      ∷ ("label_exists", check_label_exists id v)
      ∷ ("thread_message_count", check_thread_message_count id v)
      ∷ ("message_in_trash", check_in_trash id v)
      ∷ []

  unfoldable pub check_type : String → String → Value → Gmail AssertionResult
  check_type type_name id v =
      choose type_name (check_cases id v)
        (fail (operation ("unknown assertion type: " <> type_name)))

  unfoldable pub evaluate_assertion : Value → Gmail AssertionResult
  evaluate_assertion check = do
    type_name ← ok_or (str_field json check "type") (operation "assertion missing 'type' field")
    check_type type_name (unwrap_or (str_field json check "id") type_name) check
