-- ===== src/Ingestion/Headings.antt =====
-- The patterns and titles of packages/ingestion/src/structure/detect-structure.ts.
use audio_book.Base.{
  Bool, false, ◌&&◌, ◌||◌, Option, none, some, String, List, [], ◌∷◌, ◌==◌, any, all, ltb, length,
  map, if◌then◌else◌,
}
use audio_book.Ingestion.Model.{Text, Unicode}
use audio_book.Ingestion.Text.{
  codes, same_text, fold_case, is_digit, is_roman, trim, after_word, after_spaces, word_run,
}
use audio_book.Ingestion.Noise.{is_run}

pub data MatterType : Type 0 where
  front_matter body back_matter : MatterType

abbrev number_words : List String
number_words =
    "one" ∷ "two" ∷ "three" ∷ "four" ∷ "five" ∷ "six" ∷ "seven" ∷ "eight" ∷ "nine" ∷ "ten"
    ∷ "eleven" ∷ "twelve" ∷ "thirteen" ∷ "fourteen" ∷ "fifteen" ∷ "sixteen" ∷ "seventeen"
    ∷ "eighteen" ∷ "nineteen" ∷ "twenty" ∷ []

abbrev front_matter_titles : List String
front_matter_titles =
    "title page" ∷ "copyright" ∷ "copyright page" ∷ "dedication" ∷ "epigraph" ∷ "preface"
    ∷ "foreword" ∷ "introduction" ∷ "contents" ∷ "table of contents" ∷ "acknowledgments"
    ∷ "acknowledgements" ∷ []

abbrev back_matter_titles : List String
back_matter_titles =
    "afterword" ∷ "appendix" ∷ "glossary" ∷ "bibliography" ∷ "index" ∷ "about the author"
    ∷ "author's note" ∷ "author note" ∷ "notes" ∷ []

abbrev pub is_among : List String → Text → Bool
is_among names s = any (λ name. same_text (codes name) s) names

-- The number of a chapter: the whole word up to `\b`.
unfoldable pub is_chapter_number : Text → Bool
is_chapter_number w =
    (ltb 0 (length w) && (all is_digit w || all is_roman w))
    || is_among number_words (map fold_case w)

-- `(chapter|part|book)\s+…\b` from one of its keywords on.
unfoldable pub numbered_after : String → Text → Bool
numbered_after keyword s = elim (after_word (codes keyword) s) [
  | none ↦ false
  | some rest ↦ elim (after_spaces rest) [
    | none ↦ false
    | some number ↦ is_chapter_number (word_run number)
  ]
]

unfoldable pub chapter_pattern : Text → Bool
chapter_pattern s = numbered_after "chapter" s || numbered_after "part" s || numbered_after "book" s

-- `\.?$`
unfoldable pub without_dot : Text → Text
without_dot [] = []
without_dot (c ∷ s) = let rest = without_dot s in if c == 46 && same_text s [] then [] else c ∷ rest

unfoldable pub bare_roman_or_number : Text → Bool
bare_roman_or_number s = is_run is_roman 8 (without_dot s) || is_run is_digit 3 (without_dot s)

unfoldable pub is_chapter_heading : Unicode → Text → Bool
is_chapter_heading u text =
    let trimmed = trim text in
    let lower = u.to_lower_case trimmed in
    chapter_pattern trimmed
    || bare_roman_or_number trimmed
    || is_among front_matter_titles lower
    || is_among back_matter_titles lower
    || same_text lower (codes "prologue")
    || same_text lower (codes "epilogue")

unfoldable pub classify_matter_type : Unicode → Option Text → MatterType
classify_matter_type u none = body
classify_matter_type u (some title) =
    let lower = u.to_lower_case (trim title) in
    if same_text title []
    then body
    else if is_among front_matter_titles lower
    then front_matter
    else if is_among back_matter_titles lower
    then back_matter
    else body
