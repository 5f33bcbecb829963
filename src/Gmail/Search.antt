-- ===== src/Gmail/Search.antt =====
-- The `q` parameter of a listing: its tokens, its dates, and the messages that it matches.
-- `to_uppercase` and `to_lowercase` are the standard library's, over the tables of Unicode.
pub mod Calendar
pub mod Dates
use agent_sandbox.Common.Text.Scan.{contains_text, eq_ignore_ascii_case}
use agent_sandbox.Common.Text.Split.{split, words}
use agent_sandbox.Gmail.Types.{GmailMessage}
use agent_sandbox.Common.{
  [], none, some, Option, List, String, ℕ, ◌++◌, Bool, parse_u64, if◌then◌else◌, strip_prefix, ◌∷◌,
  ◌==◌, ◌*◌, true, any, leb, ltb, all, str_eq, ◌&&◌, ◌||◌, ◌%◌, ◌-◌, not, ◌^◌, ◌/◌, u64_mod, ◌+◌,
}

pub record GmailQueryFilter : Type 0 where
  pub include_labels : List String
  pub exclude_labels : List String
  pub after_ms : Option ℕ
  pub before_ms : Option ℕ
  pub from : Option String
  pub subject : Option String

abbrev pub no_filter : GmailQueryFilter
no_filter = record {
  include_labels = [];
  exclude_labels = [];
  after_ms = none;
  before_ms = none;
  from = none;
  subject = none;
}

-- `s.parse::<i64>()` on a text without `-`.
abbrev pub below_i64 : Option ℕ → Option ℕ
below_i64 none = none
below_i64 (some n) = if ltb n (2 ^ 63) then some n else none

abbrev pub parse_i64 : String → Option ℕ
parse_i64 s = below_i64 (parse_u64 s)

abbrev pub is_date_separator : ℕ → Bool
is_date_separator c = c == 47 || c == 45

-- Days since 1970-01-01. The years begin in March; an `era` has 400 of them.
unfoldable pub days_from_civil : ℕ → ℕ → ℕ → ℕ
days_from_civil year month day =
    let y = if leb month 2 then year - 1 else year in
    let era = y / 400 in
    let yoe = y % 400 in
    let doy = (153 * (if ltb 2 month then month - 3 else month + 9) + 2) / 5 + day - 1 in
    let doe = yoe * 365 + yoe / 4 - yoe / 100 + doy in
    (era * 146097 + doe + (u64_mod - 719468)) % u64_mod

abbrev pub is_date : ℕ → ℕ → ℕ → Bool
is_date year month day = leb 1 month && leb month 12 && leb 1 day && leb day 31 && leb 1970 year

unfoldable pub date_to_ms : Option ℕ → Option ℕ → Option ℕ → Option ℕ
date_to_ms (some year) (some month) (some day) =
    if is_date year month day
    then some ((days_from_civil year month day * 86400000) % u64_mod)
    else none
date_to_ms _ _ _ = none

unfoldable pub parts_to_ms : List String → Option ℕ
parts_to_ms (year ∷ month ∷ day ∷ []) =
    date_to_ms (parse_i64 year) (parse_i64 month) (parse_i64 day)
parts_to_ms _ = none

unfoldable pub parse_date_to_ms : String → Option ℕ
parse_date_to_ms s = parts_to_ms (split is_date_separator s)

-- `if let Some(rest) = token.strip_prefix(p) { .. } else ..`
abbrev pub prefixed {ℓ} : {A : Type ℓ} → String → String → (String → A) → A → A
prefixed p token f otherwise = elim (strip_prefix token p) [ none ↦ otherwise | some rest ↦ f rest ]

abbrev pub set_after : Option ℕ → GmailQueryFilter → GmailQueryFilter
set_after none f = f
set_after (some ms) f = record f { after_ms = some ms }

abbrev pub set_before : Option ℕ → GmailQueryFilter → GmailQueryFilter
set_before none f = f
set_before (some ms) f = record f { before_ms = some ms }

module _ (to_uppercase to_lowercase : String → String) where
  -- The names that the code lists stand for themselves, but for `DRAFTS`.
  abbrev pub mailbox_label : String → String
  mailbox_label upper =
      if str_eq upper "SENT"
      then "SENT"
      else if str_eq upper "INBOX"
      then "INBOX"
      else if str_eq upper "TRASH"
      then "TRASH"
      else if str_eq upper "DRAFT" || str_eq upper "DRAFTS"
      then "DRAFT"
      else if str_eq upper "SPAM"
      then "SPAM"
      else if str_eq upper "STARRED"
      then "STARRED"
      else if str_eq upper "UNREAD"
      then "UNREAD"
      else to_uppercase upper

  unfoldable pub apply_token : String → GmailQueryFilter → GmailQueryFilter
  apply_token token f =
      prefixed "in:" token
        (λ box. record f {
          include_labels = f.include_labels ++ (mailbox_label (to_uppercase box) ∷ []);
        })
        (prefixed "-label:" token
          (λ name. record f { exclude_labels = f.exclude_labels ++ (name ∷ []) })
          (prefixed "after:" token (λ date. set_after (parse_date_to_ms date) f)
            (prefixed "before:" token (λ date. set_before (parse_date_to_ms date) f)
              (prefixed "from:" token (λ addr. record f { from = some (to_lowercase addr) })
                (prefixed "subject:" token (λ text. record f { subject = some (to_lowercase text) })
                  f)))))

  unfoldable pub apply_tokens : List String → GmailQueryFilter → GmailQueryFilter
  apply_tokens [] f = f
  apply_tokens (t ∷ ts) f = apply_tokens ts (apply_token t f)

  unfoldable pub parse_gmail_query : String → GmailQueryFilter
  parse_gmail_query q = apply_tokens (words q) no_filter

abbrev pub has_label : GmailMessage → String → Bool
has_label m l = any (λ k. eq_ignore_ascii_case k l) m.label_ids

abbrev pub is_not_before : Option ℕ → ℕ → Bool
is_not_before none date = true
is_not_before (some after) date = not (ltb date after)

abbrev pub is_before : Option ℕ → ℕ → Bool
is_before none date = true
is_before (some before) date = not (leb before date)

abbrev pub mentions : Option String → String → Bool
mentions none text = true
mentions (some part) text = contains_text text part

unfoldable pub message_matches_query : (String → String) → GmailMessage → GmailQueryFilter → Bool
message_matches_query to_lowercase m f =
    all (has_label m) f.include_labels
    && all (λ l. not (has_label m l)) f.exclude_labels
    && is_not_before f.after_ms m.internal_date
    && is_before f.before_ms m.internal_date
    && mentions f.from (to_lowercase m.from)
    && mentions f.subject (to_lowercase m.subject)
