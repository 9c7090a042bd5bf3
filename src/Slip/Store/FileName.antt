-- ===== src/Slip/Store/FileName.antt =====
-- `safeStateFileName` of app/slip/state_store.go: the name of the file that holds a message's state.
use Prim.Native.Char.{Char, code}
use Prim.Native.String.{String, [], ◌∷◌, ◌++◌}
use text.Mathlib.TextLemmas.{nil-append, cons-append}
use routing_slip_pattern.Common.{
  ℕ, Bool, true, false, ◌&&◌, ◌||◌, ◌≡◌, refl, leb, ◌==◌, if◌then◌else◌, arith, Bool-cases, inl,
  inr, if_rule,
}
use routing_slip_pattern.Common.Text.{trim_space, is_empty}

abbrev pub is_letter_or_digit : ℕ → Bool
is_letter_or_digit c =
    (leb b'a' c && leb c b'z') || (leb b'A' c && leb c b'Z') || (leb b'0' c && leb c b'9')

abbrev pub is_mark : ℕ → Bool
is_mark c = c == b'-' || c == b'_' || c == b'.'

unfoldable pub safe_char : Char → Char
safe_char c = if is_letter_or_digit (code c) || is_mark (code c) then c else "_"

unfoldable pub safe_chars : String → String
unfolding safe_char
safe_chars [] = []
safe_chars (c ∷ s) = safe_char c ∷ safe_chars s

-- `strings.Trim(s, "._-")`, from the left and from the right.
unfoldable pub trim_marks_left : String → String
trim_marks_left [] = []
trim_marks_left (c ∷ s) = let rest = trim_marks_left s in if is_mark (code c) then rest else c ∷ s

unfoldable pub trim_marks_right : String → String
trim_marks_right [] = []
trim_marks_right (c ∷ s) =
    let rest = trim_marks_right s in if is_mark (code c) && is_empty rest then [] else c ∷ rest

abbrev or_unknown : String → String
or_unknown s = if is_empty s then "unknown" else s

unfoldable pub safe_state_file_name : String → String
unfolding trim_space safe_chars trim_marks_left trim_marks_right
safe_state_file_name value =
    let trimmed = trim_space value in
    let cleaned = trim_marks_right (trim_marks_left (safe_chars trimmed)) in
    if is_empty trimmed then "unknown" else or_unknown cleaned

-- Letters, digits and the marks "-", "_" and "." alone: no separator of directories among them.
abbrev pub IsSafe : String → Type 0
IsSafe [] = Unit
IsSafe (c ∷ s) = (is_letter_or_digit (code c) || is_mark (code c) ≡ true) × IsSafe s

-- The text begins with a letter or a digit.
abbrev pub StartsPlain : String → Type 0
StartsPlain [] = ⊥
StartsPlain (c ∷ s) = is_letter_or_digit (code c) ≡ true

safe_chars-IsSafe : (s : String) → IsSafe (safe_chars s)
unfolding safe_chars
safe_chars-IsSafe [] = tt
safe_chars-IsSafe (c ∷ s) = (
  if_rule (λ (d : Char). is_letter_or_digit (code d) || is_mark (code d) ≡ true)
      (is_letter_or_digit (code c) || is_mark (code c)) c "_" (λ h. h) (λ _. refl),
  safe_chars-IsSafe s,
)

-- Trimming on the left leaves nothing, or a text that begins with no mark.
abbrev Trimmed : String → Type 0
Trimmed [] = Unit
Trimmed (c ∷ s) = is_mark (code c) ≡ false

trim_marks_left_lem :
    (s : String) → IsSafe s → IsSafe (trim_marks_left s) × Trimmed (trim_marks_left s)
unfolding trim_marks_left
trim_marks_left_lem [] h = (tt, tt)
trim_marks_left_lem (c ∷ s) h = elim (Bool-cases (is_mark (code c))) [
  | inl mark ↦ rw (mark, trim_marks_left) (trim_marks_left_lem s h.1)
  | inr plain ↦ rw (plain, trim_marks_left) (h, plain)
]

trim_marks_right-IsSafe : (s : String) → IsSafe s → IsSafe (trim_marks_right s)
unfolding trim_marks_right
trim_marks_right-IsSafe [] h = tt
trim_marks_right-IsSafe (c ∷ s) h =
    if_rule IsSafe (is_mark (code c) && is_empty (trim_marks_right s)) _ _ (λ _. tt)
      (λ _. (h.0, trim_marks_right-IsSafe s h.1))

trim_marks_right-Trimmed : (s : String) → Trimmed s → Trimmed (trim_marks_right s)
unfolding trim_marks_right
trim_marks_right-Trimmed [] h = tt
trim_marks_right-Trimmed (c ∷ s) h =
    if_rule Trimmed (is_mark (code c) && is_empty (trim_marks_right s)) _ _ (λ _. tt) (λ _. h)

unknown-IsSafe : IsSafe "unknown" × StartsPlain "unknown"
unknown-IsSafe = ((refl, (refl, (refl, (refl, (refl, (refl, (refl, tt))))))), refl)

or_unknown_lem :
    (s : String) → IsSafe s → Trimmed s → IsSafe (or_unknown s) × StartsPlain (or_unknown s)
or_unknown_lem [] h t = unknown-IsSafe
or_unknown_lem (c ∷ s) h t = (h, ground arith)

-- The file name of any message id has letters, digits, "-", "_" and "." alone, and begins with a
-- letter or a digit: so it is not empty, holds no separator, and is neither "." nor "..".
pub safe_state_file_name_lem :
    (value : String)
    → IsSafe (safe_state_file_name value) × StartsPlain (safe_state_file_name value)
unfolding safe_state_file_name
safe_state_file_name_lem value =
    let chars = safe_chars (trim_space value) in
    let left = trim_marks_left_lem chars (safe_chars-IsSafe (trim_space value)) in
    if_rule (λ (n : String). IsSafe n × StartsPlain n) (is_empty (trim_space value)) _ _
      (λ _. unknown-IsSafe)
      (λ _.
        or_unknown_lem (trim_marks_right (trim_marks_left chars))
          (trim_marks_right-IsSafe (trim_marks_left chars) left.0)
          (trim_marks_right-Trimmed (trim_marks_left chars) left.1))

safe_chars-append : (p q : String) → safe_chars (p ++ q) ≡ safe_chars p ++ safe_chars q
unfolding safe_chars
safe_chars-append [] q = simp nil-append
safe_chars-append (c ∷ p) q = simp (cons-append, safe_chars-append p q)

not_empty : (p : String) (d : Char) (q : String) → is_empty (p ++ (d ∷ q)) ≡ false
not_empty [] d q = rw nil-append
not_empty (c ∷ p) d q = rw cons-append

-- Names are not unique: two message ids that differ, once trimmed, in one character that the first
-- has outside the safe set and the second as "_", have one file.
pub safe_state_file_name_collision :
    (x y p q : String) (c : Char)
    → trim_space x ≡ p ++ (c ∷ q)
    → trim_space y ≡ p ++ ("_" ∷ q)
    → is_letter_or_digit (code c) || is_mark (code c) ≡ false
    → safe_state_file_name x ≡ safe_state_file_name y
unfolding safe_state_file_name
safe_state_file_name_collision x y p q c hx hy unsafe =
    rw (hx, hy, filled c, filled "_", safe_chars-append p (c ∷ q), safe_chars-append p ("_" ∷ q))
      (rw same refl)
  where
    filled : (d : Char) → is_empty (p ++ (d ∷ q)) ≡ false
    filled d = not_empty p d q

    same : safe_chars (c ∷ q) ≡ safe_chars ("_" ∷ q)
    same = unfold safe_chars in rw unsafe refl
