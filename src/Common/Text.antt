-- ===== src/Common/Text.antt =====
-- The functions of Rust's `str` and `u64` that the twins use.
pub mod Decimal
pub mod Scan
pub mod Split
use Prim.Native.Nat.{ℕ, zero, suc, ◌+◌, ◌-◌, ◌*◌, ◌/◌, ◌%◌, ◌<◌}
use Prim.Native.Char.{Char, code}
use Prim.Native.String.{String, [], ◌∷◌, ◌++◌, count}
use mathlib.Core.Path.{◌≡◌, refl}
use mathlib.Core.Bool.{Bool, true, ◌&&◌}
use mathlib.Core.Option.{Option, none, some}
use native.Mathlib.Omega.{arith}
use text.Mathlib.TextLemmas.{nil-append, cons-append}
use agent_sandbox.Common.Tests.{ltb, leb, ◌==◌, if◌then◌else◌, u64_mod}

-- `s.strip_prefix(p)`
unfoldable pub strip_prefix : String → String → Option String
strip_prefix s [] = some s
strip_prefix [] (d ∷ p) = none
strip_prefix (c ∷ s) (d ∷ p) = if code c == code d then strip_prefix s p else none

pub strip_prefix-append : (p s : String) → strip_prefix (p ++ s) p ≡ some s
unfolding strip_prefix
strip_prefix-append [] s = rw nil-append
strip_prefix-append (c ∷ p) s = rw cons-append (ground (arith, strip_prefix-append p s))

-- `s.chars().all(p)` on the characters' code points.
unfoldable pub all_chars : (ℕ → Bool) → String → Bool
all_chars p [] = true
all_chars p (c ∷ s) = p (code c) && all_chars p s

pub all_chars-append :
    (p : ℕ → Bool) (s t : String) → all_chars p (s ++ t) ≡ (all_chars p s && all_chars p t)
unfolding all_chars
all_chars-append p [] t = rw nil-append refl
all_chars-append p (c ∷ s) t = rw cons-append (ground (arith, all_chars-append p s t))

digit : ℕ → Char
digit zero = "0"
digit (suc zero) = "1"
digit (suc (suc zero)) = "2"
digit (suc (suc (suc zero))) = "3"
digit (suc (suc (suc (suc zero)))) = "4"
digit (suc (suc (suc (suc (suc zero))))) = "5"
digit (suc (suc (suc (suc (suc (suc zero)))))) = "6"
digit (suc (suc (suc (suc (suc (suc (suc zero))))))) = "7"
digit (suc (suc (suc (suc (suc (suc (suc (suc zero)))))))) = "8"
digit n = "9"

code-digit : (d : ℕ) → d < 10 → code (digit d) ≡ 48 + d
unfolding digit
code-digit zero h = refl
code-digit (suc zero) h = refl
code-digit (suc (suc zero)) h = refl
code-digit (suc (suc (suc zero))) h = refl
code-digit (suc (suc (suc (suc zero)))) h = refl
code-digit (suc (suc (suc (suc (suc zero))))) h = refl
code-digit (suc (suc (suc (suc (suc (suc zero)))))) h = refl
code-digit (suc (suc (suc (suc (suc (suc (suc zero))))))) h = refl
code-digit (suc (suc (suc (suc (suc (suc (suc (suc zero)))))))) h = refl
code-digit (suc (suc (suc (suc (suc (suc (suc (suc (suc zero))))))))) h = refl
code-digit (suc (suc (suc (suc (suc (suc (suc (suc (suc (suc k)))))))))) h = absurd (omega arith)

decimal : ℕ → ℕ → String
decimal zero n = []
decimal (suc f) n =
    let front = decimal f (n / 10) ++ (digit (n % 10) ∷ []) in
    if ltb n 10 then digit n ∷ [] else front

-- The decimal numeral of a number.
unfoldable pub to_string : ℕ → String
unfolding decimal digit
to_string n = decimal (suc n) n

-- So many zeros in front.
unfoldable pub zeros : ℕ → String → String
zeros zero s = s
zeros (suc k) s = "0" ∷ zeros k s

-- `format!("{:06}", n)`: zeros in front, up to six characters.
unfoldable pub padded_6 : ℕ → String
unfolding zeros to_string
padded_6 n = zeros (6 - count (to_string n)) (to_string n)

-- Reads digits after the number that stands before them.
parse_digits : ℕ → String → Option ℕ
parse_digits n [] = some n
parse_digits n (c ∷ s) =
    if leb 48 (code c) && leb (code c) 57 then parse_digits (n * 10 + (code c - 48)) s else none

bounded : Option ℕ → Option ℕ
bounded none = none
bounded (some n) = if ltb n u64_mod then some n else none

-- `s.parse::<u64>().ok()`: one `+` may stand in front; no digit, another character, or a value
-- past the type is an error.
unfoldable pub parse_u64 : String → Option ℕ
unfolding parse_digits bounded
parse_u64 [] = none
parse_u64 (c ∷ []) = bounded (parse_digits 0 (c ∷ []))
parse_u64 (c ∷ d ∷ s) = bounded (parse_digits 0 (if code c == 43 then d ∷ s else c ∷ d ∷ s))

padded_example : padded_6 42 ≡ "000042"
unfolding padded_6
padded_example = refl

parse_u64_example : parse_u64 "+018" ≡ some 18
unfolding parse_u64
parse_u64_example = refl
