-- ===== src/Common/Text/Split.antt =====
-- Cutting a text into parts and words.
use text.Mathlib.TextLemmas.{nil-append, cons-append}
use agent_sandbox.Common.Text.Scan.{is_whitespace}
use Prim.Native.Char.{Char, code}
use agent_sandbox.Common.{
  [], String, ℕ, List, ◌∷◌, Bool, if◌then◌else◌, true, ◌<>◌, false, all_chars, not, ◌≡◌, arith,
  refl,
}

push_front : Char → List String → List String
push_front c [] = String.◌∷◌ c String.[] ∷ []
push_front c (part ∷ parts) = String.◌∷◌ c part ∷ parts

-- `s.split(p)`, on a test of characters: one part more than there are separators.
unfoldable pub split : (ℕ → Bool) → String → List String
unfolding push_front
split p String.[] = String.[] ∷ []
split p (String.◌∷◌ c s) =
    let rest = split p s in if p (code c) then String.[] ∷ rest else push_front c rest

keep_word : String → List String → List String
keep_word String.[] words = words
keep_word (String.◌∷◌ c word) words = String.◌∷◌ c word ∷ words

words_from : String → String → List String
unfolding keep_word
words_from word String.[] = keep_word word []
words_from word (String.◌∷◌ c s) = elim (is_whitespace (code c)) [
  | true ↦ keep_word word (words_from String.[] s)
  | false ↦ words_from (word <> String.◌∷◌ c String.[]) s
]

-- The longest pieces without white space.
unfoldable pub words : String → List String
unfolding words_from
words s = words_from String.[] s

-- A text without a separator is one part; one separator behind it ends the part.
pub split-part :
    (p : ℕ → Bool) (s : String) → all_chars (λ c. not (p c)) s ≡ true → split p s ≡ s ∷ []
unfolding split all_chars push_front
split-part p String.[] h = refl
split-part p (String.◌∷◌ c s) h = ground (arith, split-part p s)

pub split-append :
    (p : ℕ → Bool) (s : String) (c : Char) (t : String)
    → all_chars (λ c. not (p c)) s ≡ true
    → p (code c) ≡ true
    → split p (s <> String.◌∷◌ c t) ≡ s ∷ split p t
unfolding split all_chars push_front
split-append p String.[] c t h k = rw nil-append (ground arith)
split-append p (String.◌∷◌ d s) c t h k = rw cons-append (ground (arith, split-append p s c t))
