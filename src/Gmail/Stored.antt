-- ===== src/Gmail/Stored.antt =====
-- The attachments that a message brings: the numbers they get, and that each is found again.
use agent_sandbox.Gmail.Threading.{new_id}
use agent_sandbox.Gmail.Messages.{reference, store_attachments, put_attachment}
use agent_sandbox.Gmail.Listing.{and_then}
use agent_sandbox.Common.Text.Decimal.{parse_u64-to_string}
use mathlib.Core.Option.{some-injective}
use agent_sandbox.Common.BTreeMap.{BTreeMap, get, insert, get-insert}
use agent_sandbox.Gmail.Types.{AttachmentRef, GmailTwinService}
use agent_sandbox.Common.{
  [], ◌∷◌, some, ℕ, ◌<◌, String, List, u64_mod, ◌<>◌, Bytes, to_string, ◌≡◌, get_elem?, ◌+◌, sym,
  length, arith, ◌∙◌, ap, parse_u64, strip_prefix-append, strip_prefix, find, str_eq, eq_iff,
  eq_refl, suc, zero, refl, ok, ◌%◌,
}

abbrev pub att : ℕ → String
att n = "att_" <> to_string n

att-injective : (m n : ℕ) → m < u64_mod → n < u64_mod → att m ≡ att n → m ≡ n
att-injective m n small fits same = some-injective m n (
    sym (parse_u64-to_string m small)
    ∙ ap (λ o. and_then o parse_u64)
        (sym (strip_prefix-append "att_" (to_string m))
          ∙ ap (λ t. strip_prefix t "att_") same
          ∙ strip_prefix-append "att_" (to_string n))
    ∙ parse_u64-to_string n fits)

-- The references and the store when the numbers start at `n`.
pub refs_from : ℕ → List (String × String × Bytes) → List AttachmentRef
refs_from n [] = []
refs_from n ((filename, mime_type, bytes) ∷ rest) =
    reference (att n) filename mime_type bytes ∷ refs_from (n + 1) rest

pub stored : ℕ → List (String × String × Bytes) → BTreeMap Bytes → BTreeMap Bytes
stored n [] m = m
stored n ((filename, mime_type, bytes) ∷ rest) m = stored (n + 1) rest (insert (att n) bytes m)

stored-older :
    (k n : ℕ) (atts : List (String × String × Bytes)) (m : BTreeMap Bytes)
    → k < n
    → n + length atts < u64_mod
    → get (att k) (stored n atts m) ≡ get (att k) m
unfolding stored
stored-older k n [] m older small = refl
stored-older k n ((filename, mime_type, bytes) ∷ rest) m older small =
    stored-older k (n + 1) rest (insert (att n) bytes m) (omega arith) (omega arith)
    ∙ ground (
      arith,
      get-insert (att k) (att n) bytes m,
      eq_iff (att n) (att k),
      att-injective n k (omega arith) (omega arith),
    )

pub stored-get :
    (i n : ℕ) (atts : List (String × String × Bytes)) (m : BTreeMap Bytes)
    (filename mime_type : String) (bytes : Bytes)
    → get_elem? atts i ≡ some (filename, mime_type, bytes)
    → n + length atts < u64_mod
    → get (att (n + i)) (stored n atts m) ≡ some bytes
unfolding stored
stored-get i n [] m filename mime_type bytes e small = absurd (ground arith)
stored-get zero n ((f, t, b) ∷ rest) m filename mime_type bytes e small =
    ap (λ k. get (att k) (stored (n + 1) rest (insert (att n) b m))) {x = n + 0} (omega arith)
    ∙ stored-older n (n + 1) rest (insert (att n) b m) (omega arith) (omega arith)
    ∙ ground (arith, get-insert (att n) (att n) b m, eq_refl (att n))
stored-get (suc i) n ((f, t, b) ∷ rest) m filename mime_type bytes e small =
    ap (λ k. get (att k) (stored (n + 1) rest (insert (att n) b m))) {x = n + suc i} (omega arith)
    ∙ stored-get i (n + 1) rest (insert (att n) b m) filename mime_type bytes e (omega arith)

get_elem-length :
    {A : Type 0} (i : ℕ) (xs : List A) (x : A) → get_elem? xs i ≡ some x → i < length xs
get_elem-length i [] x e = absurd (ground arith)
get_elem-length zero (y ∷ xs) x e = omega arith
get_elem-length (suc i) (y ∷ xs) x e = omega (arith, get_elem-length i xs x e)

pub find-refs_from :
    (i j n : ℕ) (atts : List (String × String × Bytes)) (filename mime_type : String)
    (bytes : Bytes)
    → j ≡ n + i
    → get_elem? atts i ≡ some (filename, mime_type, bytes)
    → n + length atts < u64_mod
    → find (λ a. str_eq a.attachment_id (att j)) (refs_from n atts)
      ≡ some (reference (att j) filename mime_type bytes)
unfolding refs_from
find-refs_from i j n [] filename mime_type bytes at e small = absurd (ground arith)
find-refs_from zero j n ((f, t, b) ∷ rest) filename mime_type bytes at e small =
    let same : j ≡ n = omega arith in ground (arith, eq_refl (att n))
find-refs_from (suc i) j n ((f, t, b) ∷ rest) filename mime_type bytes at e small =
    let later = get_elem-length i rest (filename, mime_type, bytes) e in
    ground (
      arith,
      eq_iff (att n) (att j),
      att-injective n j (omega arith) (omega (arith, later)),
      find-refs_from i j (n + 1) rest filename mime_type bytes (omega arith) e (omega arith),
    )

pub get_elem-refs_from :
    (i n : ℕ) (atts : List (String × String × Bytes)) (filename mime_type : String) (bytes : Bytes)
    → get_elem? atts i ≡ some (filename, mime_type, bytes)
    → get_elem? (refs_from n atts) i ≡ some (reference (att (n + i)) filename mime_type bytes)
unfolding refs_from
get_elem-refs_from i n [] filename mime_type bytes e = absurd (ground arith)
get_elem-refs_from zero n ((f, t, b) ∷ rest) filename mime_type bytes e =
    let same : n + 0 ≡ n = omega arith in rw same (ground arith)
get_elem-refs_from (suc i) n ((f, t, b) ∷ rest) filename mime_type bytes e =
    let same : n + suc i ≡ n + 1 + i = omega arith in
    rw same (get_elem-refs_from i (n + 1) rest filename mime_type bytes e)

pub store_attachments_lem :
    (atts : List (String × String × Bytes)) (t : GmailTwinService)
    → t.next_id + length atts < u64_mod
    → store_attachments atts t ≡ (
      ok (refs_from t.next_id atts),
      record t {
        attachments = stored t.next_id atts t.attachments;
        next_id = t.next_id + length atts;
      },
    )
unfolding store_attachments new_id refs_from stored
store_attachments_lem [] t small =
    let same : t.next_id + 0 ≡ t.next_id = omega arith in rw same refl
store_attachments_lem ((filename, mime_type, bytes) ∷ rest) t small =
    let next : (t.next_id + 1) % u64_mod ≡ t.next_id + 1 = omega arith in
    let sum : t.next_id + 1 + length rest ≡ t.next_id + suc (length rest) = omega arith in
    let u = put_attachment (att t.next_id) bytes (record t { next_id = t.next_id + 1 }) in
    rw next (rw (store_attachments_lem rest u (omega arith)) (rw sum refl))
