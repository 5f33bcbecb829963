-- ===== src/Server/Tokens/Safe.antt =====
-- What a safe token cannot hold, and that the names of runs are safe.
use agent_sandbox.Common.Text.Decimal.{all_chars-padded_6}
use Prim.Native.Char.{code}
use text.Mathlib.TextLemmas.{nil-append, cons-append}
use agent_sandbox.Server.Tokens.{is_safe_token, run_name, is_safe_char, is_empty_text}
use agent_sandbox.Common.{
  all_chars, ℕ, String, Bool, not, ◌==◌, ◌≡◌, true, false, arith, refl, all_chars-append, padded_6,
  ◌<>◌, ◌&&◌,
}

abbrev pub has_char : ℕ → String → Bool
has_char c s = not (all_chars (λ d. not (d == c)) s)

all_chars-weaken :
    (p q : ℕ → Bool) (s : String)
    → ((d : ℕ) → p d ≡ true → q d ≡ true)
    → all_chars p s ≡ true
    → all_chars q s ≡ true
unfolding all_chars
all_chars-weaken p q String.[] weaker h = refl
all_chars-weaken p q (String.◌∷◌ c s) weaker h =
    ground (arith, weaker (code c), all_chars-weaken p q s weaker)

no_char :
    (s : String) (c : ℕ) → is_safe_token s ≡ true → is_safe_char c ≡ false → has_char c s ≡ false
unfolding is_safe_token
no_char s c h unsafe =
    let other : (d : ℕ) → is_safe_char d ≡ true → not (d == c) ≡ true =
      λ d e. ground (arith, e, unsafe) in
    let all : all_chars is_safe_char s ≡ true = ground arith in
    ground (arith, all_chars-weaken is_safe_char (λ d. not (d == c)) s other all)

is_empty_text-append :
    (s t : String) → is_empty_text (s <> t) ≡ (is_empty_text s && is_empty_text t)
is_empty_text-append String.[] t = rw nil-append refl
is_empty_text-append (String.◌∷◌ c s) t = rw cons-append refl

-- The name that a scenario run gets is a safe token, so that `load_run` does not refuse it.
pub is_safe_token-run_name : (n : ℕ) → is_safe_token (run_name n) ≡ true
unfolding is_safe_token run_name all_chars
is_safe_token-run_name n =
    let digits = all_chars-padded_6 is_safe_char n (λ d low high. ground arith) in
    ground (
      arith,
      all_chars-append is_safe_char "run_" (padded_6 n),
      is_empty_text-append "run_" (padded_6 n),
      digits,
    )

-- A token that is safe has no slash, backslash, dot or colon, so that it names a file in its
-- directory.
pub is_safe_token_lem :
    (s : String)
    → is_safe_token s ≡ true
    → (has_char 47 s ≡ false)
      × (has_char 92 s ≡ false)
      × (has_char 46 s ≡ false)
      × (has_char 58 s ≡ false)
is_safe_token_lem s h =
    (no_char s 47 h refl, no_char s 92 h refl, no_char s 46 h refl, no_char s 58 h refl)
