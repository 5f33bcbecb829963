-- ===== src/Gmail/Threads.antt =====
-- `handle`, the requests about one thread. The messages of an answer stand in the order of their keys,
-- save in `get_thread`.
use agent_sandbox.Common.Sorting.{sort_by}
use agent_sandbox.Gmail.Labelling.{relabel, trashed, untrashed, modified}
use agent_sandbox.Gmail.Threading.{in_thread, next_history}
use agent_sandbox.Gmail.Messages.{remove_message}
use agent_sandbox.Common.BTreeMap.{get, map_values, values, update, remove}
use agent_sandbox.Gmail.Types.{
  GmailMessage, GmailThread, Gmail, GmailTwinService, GmailResponse, not_found,
}
use agent_sandbox.Common.{
  [], none, some, ℕ, String, List, ◌∷◌, map, if◌then◌else◌, Option, ◌∷◌, ok_or, ltb, filter, ◌>>=◌,
  gets, pure, ◌>>◌, modify, Bool,
}

abbrev pub fetch_thread : String → Gmail GmailThread
fetch_thread id s = ok_or (get id s.threads) (not_found "thread" id) s

abbrev pub thread_messages : String → GmailTwinService → List GmailMessage
thread_messages id s = filter (in_thread id) (values s.messages)

abbrev pub is_older : GmailMessage → GmailMessage → Bool
is_older m n = ltb m.internal_date n.internal_date

unfoldable pub get_thread : String → Gmail GmailResponse
get_thread id = do
  t ← fetch_thread id
  ms ← gets (thread_messages id)
  pure (GmailResponse.thread t (sort_by is_older ms))

abbrev pub relabel_in : String → (List String → List String) → ℕ → GmailMessage → GmailMessage
relabel_in id f hid m = if in_thread id m then relabel f hid m else m

abbrev pub touch : ℕ → GmailThread → GmailThread
touch hid t = record t { history_id = hid }

abbrev pub relabel_thread :
    String → (List String → List String) → ℕ → GmailTwinService → GmailTwinService
relabel_thread id f hid s = record s {
  messages = map_values (relabel_in id f hid) s.messages;
  threads = update id (touch hid) s.threads;
}

-- The shared steps of `modify`, `trash` and `untrash`, with what becomes of the labels.
unfoldable pub change_thread : (List String → List String) → String → Gmail GmailResponse
change_thread f id = do
  t ← fetch_thread id
  hid ← next_history
  modify (relabel_thread id f hid)
  ms ← gets (thread_messages id)
  pure (GmailResponse.thread (touch hid t) ms)

unfoldable pub modify_thread : String → List String → List String → Gmail GmailResponse
modify_thread id add remove = change_thread (modified add remove) id

unfoldable pub trash_thread : String → Gmail GmailResponse
trash_thread id = change_thread trashed id

unfoldable pub untrash_thread : String → Gmail GmailResponse
untrash_thread id = change_thread untrashed id

-- `if let Some(msg) = self.messages.remove(&mid)`
abbrev pub drop_message : String → Option GmailMessage → GmailTwinService → GmailTwinService
drop_message id none s = s
drop_message id (some m) s = remove_message m id s

unfoldable pub drop_messages : List String → GmailTwinService → GmailTwinService
drop_messages [] s = s
drop_messages (id ∷ ids) s = drop_messages ids (drop_message id (get id s.messages) s)

abbrev pub message_ids : List GmailMessage → List String
message_ids ms = map (λ m. m.id) ms

unfoldable pub delete_thread : String → Gmail GmailResponse
delete_thread id = do
  t ← fetch_thread id
  ms ← gets (thread_messages id)
  modify (drop_messages (message_ids ms))
  modify (λ s. record s { threads = remove id s.threads })
  pure GmailResponse.deleted
