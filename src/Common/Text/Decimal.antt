-- ===== src/Common/Text/Decimal.antt =====
-- Printing a number in decimal and reading it back; the numerals of different numbers differ.
use agent_sandbox.Common.{if◌then◌else◌, ◌==◌, Option, none}
use Prim.Native.Nat.{ℕ, zero, suc, ◌+◌, ◌-◌, ◌*◌, ◌/◌, ◌%◌, ◌<◌, ◌≤◌}
use Prim.Native.Char.{code}
use Prim.Native.String.{String, [], ◌∷◌, ◌++◌, count}
use mathlib.Core.Path.{◌≡◌, refl, ◌∙◌, ap, sym}
use mathlib.Core.Bool.{Bool, true}
use mathlib.Core.Logic.{◌≢◌, inl, inr}
use mathlib.Core.Option.{some, some-injective}
use native.Mathlib.Omega.{arith}
use text.Mathlib.TextLemmas.{nil-append, cons-append, cons≢nil}
use agent_sandbox.Common.Tests.{ltb, u64_mod, Bool-cases}
use agent_sandbox.Common.Text.{
  bounded, digit, code-digit, decimal, to_string, parse_digits, parse_u64, zeros, padded_6,
  all_chars,
}

parse_digits-digit : (m d : ℕ) → d < 10 → parse_digits m (digit d ∷ []) ≡ some (m * 10 + d)
unfolding parse_digits
parse_digits-digit m d h = ground (arith, code-digit d h)

-- Reading a text with one more digit behind it.
parse_digits-append_digit :
    (m : ℕ) (s : String) (d k : ℕ)
    → d < 10
    → parse_digits m s ≡ some k
    → parse_digits m (s ++ (digit d ∷ [])) ≡ some (k * 10 + d)
unfolding parse_digits
parse_digits-append_digit m [] d k h e = rw nil-append (ground (arith, code-digit d h))
parse_digits-append_digit m (c ∷ s) d k h e =
    rw cons-append (ground (arith, parse_digits-append_digit (m * 10 + (code c - 48)) s d k h))

parse_digits-decimal : (f n : ℕ) → n < f → parse_digits 0 (decimal f n) ≡ some n
unfolding decimal
parse_digits-decimal zero n h = elim h [ ]
parse_digits-decimal (suc f) n h = elim (Bool-cases (ltb n 10)) [
  | inl small ↦ rw small (parse_digits-digit 0 n (ground arith) ∙ ap some (omega arith))
  | inr big ↦ rw big (
      parse_digits-append_digit 0 (decimal f (n / 10)) (n % 10) (n / 10) (omega arith)
        (parse_digits-decimal f (n / 10) (ground arith))
      ∙ ap some (omega arith))
]

-- A text that reads as digits, and not empty, reads as a number.
parse_u64_of_digits :
    (s : String) (n : ℕ) → s ≢ [] → parse_digits 0 s ≡ some n → n < u64_mod → parse_u64 s ≡ some n
unfolding parse_u64
parse_u64_of_digits [] n nonempty e h = absurd (nonempty refl)
parse_u64_of_digits (c ∷ []) n nonempty e h = ground arith
parse_u64_of_digits (c ∷ d ∷ s) n nonempty e h = ground arith

append-digit-ne-nil : (s : String) (d : ℕ) → s ++ (digit d ∷ []) ≢ []
append-digit-ne-nil [] d e = cons≢nil (sym (nil-append (digit d ∷ [])) ∙ e)
append-digit-ne-nil (c ∷ s) d e = cons≢nil (sym (cons-append c s (digit d ∷ [])) ∙ e)

decimal-ne-nil : (f n : ℕ) → decimal (suc f) n ≢ []
unfolding decimal
decimal-ne-nil f n = elim (Bool-cases (ltb n 10)) [
  | inl small ↦ rw small cons≢nil
  | inr big ↦ rw big (append-digit-ne-nil (decimal f (n / 10)) (n % 10))
]

-- A `u64` printed in decimal reads back as itself.
pub parse_u64-to_string : (n : ℕ) → n < u64_mod → parse_u64 (to_string n) ≡ some n
parse_u64-to_string n h =
    parse_u64_of_digits (to_string n) n (unfold to_string in decimal-ne-nil n n)
      (unfold to_string in parse_digits-decimal (suc n) n (omega arith)) h

parse_digits-to_string : (n : ℕ) → parse_digits 0 (to_string n) ≡ some n
unfolding to_string
parse_digits-to_string n = parse_digits-decimal (suc n) n (omega arith)

parse_digits-zeros : (k : ℕ) (s : String) → parse_digits 0 (zeros k s) ≡ parse_digits 0 s
unfolding zeros parse_digits
parse_digits-zeros zero s = refl
parse_digits-zeros (suc k) s = parse_digits-zeros k s

zeros-to_string-ne-nil : (k n : ℕ) → zeros k (to_string n) ≢ []
unfolding zeros to_string
zeros-to_string-ne-nil zero n = decimal-ne-nil n n
zeros-to_string-ne-nil (suc k) n = cons≢nil

-- A numeral with zeros in front reads as its number.
pub parse_u64-zeros : (k n : ℕ) → n < u64_mod → parse_u64 (zeros k (to_string n)) ≡ some n
parse_u64-zeros k n h =
    parse_u64_of_digits (zeros k (to_string n)) n (zeros-to_string-ne-nil k n)
      (parse_digits-zeros k (to_string n) ∙ parse_digits-to_string n) h

-- Different numbers have different numerals, also when these are padded to six characters.
pub padded_6-injective : (m n : ℕ) → padded_6 m ≡ padded_6 n → m ≡ n
unfolding padded_6
padded_6-injective m n e = some-injective m n (
    sym (parse_digits-to_string m)
    ∙ sym (parse_digits-zeros (6 - count (to_string m)) (to_string m))
    ∙ ap (parse_digits 0) e
    ∙ parse_digits-zeros (6 - count (to_string n)) (to_string n)
    ∙ parse_digits-to_string n)

-- A text that reads as digits has only digits.
all_chars-digits :
    (p : ℕ → Bool) (s : String) (m k : ℕ)
    → ((d : ℕ) → 48 ≤ d → d ≤ 57 → p d ≡ true)
    → parse_digits m s ≡ some k
    → all_chars p s ≡ true
unfolding all_chars parse_digits
all_chars-digits p [] m k digits e = refl
all_chars-digits p (c ∷ s) m k digits e =
    ground (arith, digits (code c), all_chars-digits p s (m * 10 + (code c - 48)) k digits)

pub all_chars-padded_6 :
    (p : ℕ → Bool) (n : ℕ)
    → ((d : ℕ) → 48 ≤ d → d ≤ 57 → p d ≡ true)
    → all_chars p (padded_6 n) ≡ true
unfolding padded_6
all_chars-padded_6 p n digits =
    all_chars-digits p (padded_6 n) 0 n digits
      (parse_digits-zeros (6 - count (to_string n)) (to_string n) ∙ parse_digits-to_string n)

pub all_chars-to_string :
    (p : ℕ → Bool) (n : ℕ)
    → ((d : ℕ) → 48 ≤ d → d ≤ 57 → p d ≡ true)
    → all_chars p (to_string n) ≡ true
all_chars-to_string p n digits =
    all_chars-digits p (to_string n) 0 n digits (parse_digits-to_string n)

pub all_chars-zeros :
    (p : ℕ → Bool) (k n : ℕ)
    → ((d : ℕ) → 48 ≤ d → d ≤ 57 → p d ≡ true)
    → all_chars p (zeros k (to_string n)) ≡ true
all_chars-zeros p k n digits =
    all_chars-digits p (zeros k (to_string n)) 0 n digits
      (parse_digits-zeros k (to_string n) ∙ parse_digits-to_string n)

bounded-lt : (o : Option ℕ) (n : ℕ) → bounded o ≡ some n → n < u64_mod
unfolding bounded
bounded-lt none n e = absurd (ground arith)
bounded-lt (some m) n e = ground arith

-- What is read fits the type.
pub parse_u64-lt : (s : String) (n : ℕ) → parse_u64 s ≡ some n → n < u64_mod
unfolding parse_u64
parse_u64-lt [] n e = absurd (ground arith)
parse_u64-lt (c ∷ []) n e = bounded-lt (parse_digits 0 (c ∷ [])) n e
parse_u64-lt (c ∷ d ∷ s) n e =
    bounded-lt (parse_digits 0 (if code c == 43 then d ∷ s else c ∷ d ∷ s)) n e
