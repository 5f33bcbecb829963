-- ===== src/Common/Text/Scan.antt =====
-- Searching and cutting texts: more of the functions of Rust's `str`.
use Prim.Native.Nat.{ℕ, zero, suc, ◌+◌}
use Prim.Native.Char.{code}
use Prim.Native.String.{String, [], ◌∷◌}
use mathlib.Core.Bool.{Bool, true, false, ◌&&◌, ◌||◌}
use mathlib.Core.Option.{none, some}
use agent_sandbox.Common.Tests.{ltb, leb, ◌==◌, if◌then◌else◌}
use agent_sandbox.Common.Text.{strip_prefix}

-- `char::is_whitespace`, on code points.
abbrev pub is_whitespace : ℕ → Bool
is_whitespace c =
    (leb 9 c && leb c 13)
    || c == 32
    || c == 133
    || c == 160
    || c == 5760
    || (leb 8192 c && leb c 8202)
    || c == 8232
    || c == 8233
    || c == 8239
    || c == 8287
    || c == 12288

-- `s.len()`: the bytes of the UTF-8 encoding.
abbrev pub utf8_width : ℕ → ℕ
utf8_width c = if ltb c 128 then 1 else if ltb c 2048 then 2 else if ltb c 65536 then 3 else 4

unfoldable pub byte_length : String → ℕ
byte_length [] = 0
byte_length (c ∷ s) = utf8_width (code c) + byte_length s

-- `s.chars().take(n).collect()`
unfoldable pub take_chars : ℕ → String → String
take_chars zero s = []
take_chars (suc n) [] = []
take_chars (suc n) (c ∷ s) = c ∷ take_chars n s

-- The number of characters.
unfoldable pub char_count : String → ℕ
char_count [] = 0
char_count (c ∷ s) = suc (char_count s)

-- `s.trim_start_matches(p)`: `p` is cut off as often as it stands in front. Every cut of a text that
-- is not empty makes the rest shorter, so that the number of characters is fuel enough.
trim_rounds : ℕ → String → String → String
trim_rounds zero s p = s
trim_rounds (suc fuel) s p = elim (strip_prefix s p) [
  | none ↦ s
  | some rest ↦ trim_rounds fuel rest p
]

unfoldable pub trim_start_matches : String → String → String
unfolding trim_rounds
trim_start_matches s p = trim_rounds (char_count s) s p

-- `s.contains(p)`
is_prefix : String → String → Bool
is_prefix s p = elim (strip_prefix s p) [ none ↦ false | some rest ↦ true ]

unfoldable pub contains_text : String → String → Bool
unfolding is_prefix
contains_text [] p = is_prefix [] p
contains_text (c ∷ s) p = is_prefix (c ∷ s) p || contains_text s p

-- `a.eq_ignore_ascii_case(b)`
abbrev pub ascii_lower : ℕ → ℕ
ascii_lower c = if leb 65 c && leb c 90 then c + 32 else c

unfoldable pub eq_ignore_ascii_case : String → String → Bool
eq_ignore_ascii_case [] [] = true
eq_ignore_ascii_case [] (d ∷ t) = false
eq_ignore_ascii_case (c ∷ s) [] = false
eq_ignore_ascii_case (c ∷ s) (d ∷ t) =
    ascii_lower (code c) == ascii_lower (code d) && eq_ignore_ascii_case s t
