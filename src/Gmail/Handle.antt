-- ===== src/Gmail/Handle.antt =====
-- `GmailTwinService::handle`.
use agent_sandbox.Common.{String, Result, Bytes}
use agent_sandbox.Gmail.Types.{GmailRequest, GmailResponse, Gmail}
use agent_sandbox.Gmail.Messages
use agent_sandbox.Gmail.Threads
use agent_sandbox.Gmail.Labels
use agent_sandbox.Gmail.Listing

module _ (decode : String → Result String Bytes) (to_uppercase to_lowercase : String → String) where
  unfoldable pub handle : GmailRequest → Gmail GmailResponse
  handle (GmailRequest.list_messages labels max token q) =
      Listing.list_messages to_uppercase to_lowercase labels max token q
  handle (GmailRequest.get_message id format) = Messages.get_message id
  handle (GmailRequest.send_message actor draft) = Messages.send_message actor draft
  handle (GmailRequest.insert_message raw) = Messages.insert_message decode raw
  handle (GmailRequest.modify_message id add remove) = Messages.modify_message id add remove
  handle (GmailRequest.trash_message id) = Messages.trash_message id
  handle (GmailRequest.untrash_message id) = Messages.untrash_message id
  handle (GmailRequest.delete_message id) = Messages.delete_message id
  handle (GmailRequest.list_threads labels max token) = Listing.list_threads labels max token
  handle (GmailRequest.get_thread id format) = Threads.get_thread id
  handle (GmailRequest.modify_thread id add remove) = Threads.modify_thread id add remove
  handle (GmailRequest.trash_thread id) = Threads.trash_thread id
  handle (GmailRequest.untrash_thread id) = Threads.untrash_thread id
  handle (GmailRequest.delete_thread id) = Threads.delete_thread id
  handle GmailRequest.list_labels = Labels.list_labels
  handle (GmailRequest.get_label id) = Labels.get_label id
  handle (GmailRequest.create_label name visibility label_visibility) =
      Labels.create_label name visibility label_visibility
  handle (GmailRequest.update_label id name visibility label_visibility) =
      Labels.update_label id name visibility label_visibility
  handle (GmailRequest.delete_label id) = Labels.delete_label id
  handle (GmailRequest.get_attachment message_id attachment_id) =
      Messages.get_attachment message_id attachment_id
  handle (GmailRequest.get_profile actor) = Labels.get_profile actor
