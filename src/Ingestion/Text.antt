-- ===== src/Ingestion/Text.antt =====
-- Texts as lists of code points, and the classes of characters in the regular expressions of
-- packages/ingestion/src.
use Prim.Native.Char.{code}
use audio_book.Base.{
  ℕ, ◌+◌, Bool, true, false, ◌&&◌, ◌||◌, Option, none, some, String, [], ◌∷◌, ◌==◌, leb, any,
  if◌then◌else◌,
}
use audio_book.Base.Text.{is_space}
use audio_book.Ingestion.Model.{Text}

abbrev pub codes : String → Text
codes String.[] = []
codes (String.◌∷◌ c s) = code c ∷ codes s

abbrev pub same_text : Text → Text → Bool
same_text [] [] = true
same_text [] (d ∷ t) = false
same_text (c ∷ s) [] = false
same_text (c ∷ s) (d ∷ t) = c == d && same_text s t

-- `length`, in UTF-16 units.
abbrev pub text_length : Text → ℕ
text_length [] = 0
text_length (c ∷ s) = (if leb 65536 c then 2 else 1) + text_length s

-- The lower case of a letter of ASCII, which is all that the flag `i` compares here.
unfoldable pub fold_case : ℕ → ℕ
fold_case c = if leb 65 c && leb c 90 then c + 32 else c

unfoldable pub is_digit : ℕ → Bool
is_digit c = leb 48 c && leb c 57

-- `[ivxlcdm]`, with the flag `i`
unfoldable pub is_roman : ℕ → Bool
is_roman c = any (λ d. fold_case c == d) (codes "ivxlcdm")

-- The characters that `\b` takes for a part of a word.
unfoldable pub is_word : ℕ → Bool
is_word c = is_digit c || (leb 97 (fold_case c) && leb (fold_case c) 122) || c == 95

unfoldable pub trim_start : Text → Text
trim_start [] = []
trim_start (c ∷ s) = let rest = trim_start s in if is_space c then rest else c ∷ s

unfoldable pub trim_end : Text → Text
trim_end [] = []
trim_end (c ∷ s) = let rest = trim_end s in if is_space c && same_text rest [] then [] else c ∷ rest

unfoldable pub trim : Text → Text
trim s = trim_end (trim_start s)

-- `s.replace(/p+/g, r)` for a class of characters; the flag says that the run has begun.
unfoldable pub collapse_from : (ℕ → Bool) → ℕ → Bool → Text → Text
collapse_from p r in_run [] = []
collapse_from p r in_run (c ∷ s) =
    let rest = collapse_from p r (p c) s in
    if p c && in_run then rest else (if p c then r else c) ∷ rest

abbrev pub collapse : (ℕ → Bool) → ℕ → Text → Text
collapse p r s = collapse_from p r false s

-- What is left after a literal, with the flag `i`, and after `\s+`.
unfoldable pub after_word : Text → Text → Option Text
after_word [] s = some s
after_word (c ∷ w) [] = none
after_word (c ∷ w) (d ∷ s) = let rest = after_word w s in if fold_case d == c then rest else none

unfoldable pub after_spaces : Text → Option Text
after_spaces [] = none
after_spaces (c ∷ s) = if is_space c then some (trim_start s) else none

-- The characters of a word at the start.
unfoldable pub word_run : Text → Text
word_run [] = []
word_run (c ∷ s) = let rest = word_run s in if is_word c then c ∷ rest else []
