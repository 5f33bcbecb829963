-- ===== src/Server/Tokens.antt =====
-- `is_safe_token`, which guards the names of files, and the names of runs.
pub mod Safe
use agent_sandbox.Common.{
  ℕ, String, ◌<>◌, Bool, ◌||◌, leb, not, true, padded_6, false, ◌&&◌, ◌==◌, all_chars,
}
use Prim.Native.Char.{Char, code}
use Prim.Native.String

-- `char::is_ascii_alphanumeric`
abbrev pub is_alphanumeric : ℕ → Bool
is_alphanumeric c = (leb 48 c && leb c 57) || (leb 65 c && leb c 90) || (leb 97 c && leb c 122)

-- `_` is 95 and `-` is 45.
abbrev pub is_safe_char : ℕ → Bool
is_safe_char c = is_alphanumeric c || c == 95 || c == 45

abbrev pub is_empty_text : String → Bool
is_empty_text String.[] = true
is_empty_text (String.◌∷◌ c s) = false

unfoldable pub is_safe_token : String → Bool
is_safe_token value = not (is_empty_text value) && all_chars is_safe_char value

-- `format!("run_{:06}", n)` of `run_scenario`.
unfoldable pub run_name : ℕ → String
run_name n = "run_" <> padded_6 n
