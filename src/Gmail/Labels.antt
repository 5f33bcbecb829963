-- ===== src/Gmail/Labels.antt =====
-- `handle`, the requests about labels and the profile.
use agent_sandbox.Gmail.Threading.{new_label_id}
use agent_sandbox.Gmail.Messages.{mail_address}
use agent_sandbox.Gmail.Labelling.{retain_other}
use agent_sandbox.Common.BTreeMap.{get, insert, remove, values, map_values, update}
use agent_sandbox.Gmail.Types.{
  GmailLabel, Gmail, user, GmailTwinService, GmailResponse, Visibility, GmailMessage,
  LabelVisibility, system, hide, not_found, label_hide, label_show_if_unread, show, label_show,
}
use agent_sandbox.Common.{
  none, some, String, Option, ok_or, Bool, if◌then◌else◌, ok, unwrap_or, str_eq, ◌>>=◌, false, pure,
  gets, ◌>>◌, true, any, require, length, operation, not, modify, ◌<>◌,
}

abbrev pub fetch_label : String → Gmail GmailLabel
fetch_label id s = ok_or (get id s.labels) (not_found "label" id) s

unfoldable pub list_labels : Gmail GmailResponse
list_labels s = (ok (GmailResponse.label_list (values s.labels)), s)

unfoldable pub get_label : String → Gmail GmailResponse
get_label id = do l ← fetch_label id; pure (GmailResponse.label l)

abbrev pub visibility_of : String → Visibility
visibility_of v = if str_eq v "hide" then hide else show

abbrev pub label_visibility_of : String → LabelVisibility
label_visibility_of v =
    if str_eq v "labelHide"
    then label_hide
    else if str_eq v "labelShowIfUnread"
    then label_show_if_unread
    else label_show

-- An absent visibility is read as a text that is not one of the matched ones.
abbrev pub new_label : String → String → Option String → Option String → GmailLabel
new_label id name visibility label_visibility = record {
  id = id;
  name = name;
  label_type = user;
  message_list_visibility = visibility_of (unwrap_or visibility "");
  label_list_visibility = label_visibility_of (unwrap_or label_visibility "");
  color = none;
}

abbrev pub put_label : GmailLabel → GmailTwinService → GmailTwinService
put_label l s = record s { labels = insert l.id l s.labels }

abbrev pub has_name : String → GmailLabel → Bool
has_name name l = str_eq l.name name

unfoldable pub create_label : String → Option String → Option String → Gmail GmailResponse
create_label name visibility label_visibility = do
  taken ← gets (λ s. any (has_name name) (values s.labels))
  require (not taken) (operation ("label already exists: " <> name))
  id ← new_label_id
  modify (put_label (new_label id name visibility label_visibility))
  pure (GmailResponse.label (new_label id name visibility label_visibility))

abbrev pub is_user : GmailLabel → Bool
is_user l = elim l.label_type [ system ↦ false | user ↦ true ]

abbrev pub renamed : Option String → GmailLabel → GmailLabel
renamed none l = l
renamed (some name) l = record l { name = name }

abbrev pub with_visibility : Option String → GmailLabel → GmailLabel
with_visibility none l = l
with_visibility (some v) l = record l { message_list_visibility = visibility_of v }

abbrev pub with_label_visibility : Option String → GmailLabel → GmailLabel
with_label_visibility none l = l
with_label_visibility (some v) l = record l { label_list_visibility = label_visibility_of v }

abbrev pub updated_label : Option String → Option String → Option String → GmailLabel → GmailLabel
updated_label name visibility label_visibility l =
    with_label_visibility label_visibility (with_visibility visibility (renamed name l))

unfoldable pub update_label :
    String → Option String → Option String → Option String → Gmail GmailResponse
update_label id name visibility label_visibility = do
  l ← fetch_label id
  require (is_user l) (operation "cannot modify system label")
  modify (λ s. record s {
    labels = update id (updated_label name visibility label_visibility) s.labels;
  })
  pure (GmailResponse.label (updated_label name visibility label_visibility l))

abbrev pub without_label : String → GmailMessage → GmailMessage
without_label id m = record m { label_ids = retain_other id m.label_ids }

abbrev pub drop_label : String → GmailTwinService → GmailTwinService
drop_label id s = record s {
  labels = remove id s.labels;
  messages = map_values (without_label id) s.messages;
}

unfoldable pub delete_label : String → Gmail GmailResponse
delete_label id = do
  l ← fetch_label id
  require (is_user l) (operation "cannot delete system label")
  modify (drop_label id)
  pure GmailResponse.deleted

unfoldable pub get_profile : String → Gmail GmailResponse
get_profile actor_id s = (
  ok (
      GmailResponse.profile (mail_address actor_id) (length s.messages) (length s.threads)
        s.next_history_id),
  s,
)
