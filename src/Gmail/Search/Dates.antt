-- ===== src/Gmail/Search/Dates.antt =====
-- Dates in a query: what three numerals with `/` or `-` between them are read as.
use agent_sandbox.Gmail.Search.Calendar.{calendar_days, days_from_civil_lem, calendar_days-lt}
use agent_sandbox.Common.Text.Decimal.{parse_u64-zeros, all_chars-zeros}
use agent_sandbox.Common.Text.Split.{split, split-append, split-part}
use agent_sandbox.Gmail.Search.{
  parse_date_to_ms, parts_to_ms, parse_i64, is_date_separator, date_to_ms, is_date,
}
use agent_sandbox.Common.{
  some, ℕ, String, all_chars, ◌<◌, to_string, not, ◌<>◌, ◌≡◌, ◌∷◌, true, [], arith, ◌*◌, ◌∙◌, ap,
  zeros, ◌⊎◌,
}
use Prim.Native.Char.{Char, code}

-- A number of a date, with any number of zeros in front, and a date as a query writes it.
pub record Numeral : Type 0 where
  pub padding : ℕ
  pub value : ℕ

abbrev pub numeral : Numeral → String
numeral n = zeros n.padding (to_string n.value)

abbrev pub date_text : Char → Numeral → Numeral → Numeral → String
date_text c year month day =
    numeral year <> String.◌∷◌ c (numeral month <> String.◌∷◌ c (numeral day))

-- `/` or `-`.
abbrev pub IsSeparator : Char → Type 0
IsSeparator c = (code c ≡ 47) ⊎ (code c ≡ 45)

numeral_lem : (n : Numeral) → all_chars (λ c. not (is_date_separator c)) (numeral n) ≡ true
numeral_lem n =
    all_chars-zeros (λ c. not (is_date_separator c)) n.padding n.value (λ d low high. ground arith)

split-date_text :
    (c : Char) (year month day : Numeral)
    → IsSeparator c
    → split is_date_separator (date_text c year month day)
      ≡ numeral year ∷ numeral month ∷ numeral day ∷ []
split-date_text c year month day separates =
    let here : is_date_separator (code c) ≡ true = ground arith in
    split-append is_date_separator (numeral year) c _ (numeral_lem year) here
    ∙ ap (λ r. numeral year ∷ r)
        (split-append is_date_separator (numeral month) c _ (numeral_lem month) here
          ∙ ap (λ r. numeral month ∷ r)
              (split-part is_date_separator (numeral day) (numeral_lem day)))

parse_i64-numeral : (n : Numeral) → n.value < 500000000 → parse_i64 (numeral n) ≡ some n.value
parse_i64-numeral n small = rw (parse_u64-zeros n.padding n.value (omega arith)) (ground arith)

-- A date of the years from 1970 up to 499999999, with `/` or with `-` between its numbers and with
-- any zeros in front of them, is read as the milliseconds up to the midnight with which it begins, by
-- a calendar that counts the days of all years and months before it; a day that the month lacks, such
-- as the 31st of April, counts on into the next month.
pub parse_date_to_ms_lem :
    (c : Char) (year month day : Numeral)
    → IsSeparator c
    → is_date year.value month.value day.value ≡ true
    → year.value < 500000000
    → parse_date_to_ms (date_text c year month day)
      ≡ some (calendar_days year.value month.value day.value * 86400000)
unfolding parse_date_to_ms parts_to_ms date_to_ms
parse_date_to_ms_lem c year month day separates valid small =
    rw (split-date_text c year month day separates) (
      rw
        (
          parse_i64-numeral year small,
          parse_i64-numeral month (ground arith),
          parse_i64-numeral day (ground arith),
          valid,
          days_from_civil_lem year.value month.value day.value valid small,
        )
        (ap some (omega (arith, calendar_days-lt year.value month.value day.value valid small))))
