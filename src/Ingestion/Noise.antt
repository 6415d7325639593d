-- ===== src/Ingestion/Noise.antt =====
-- packages/ingestion/src/normalize/noise-detection.ts: `detectNoise` and `isPageNumberLike`.
use audio_book.Base.{
  ℕ, suc, ◌+◌, ◌*◌, Bool, true, false, ◌&&◌, ◌||◌, Option, none, some, List, [], ◌∷◌, ◌==◌, leb,
  ltb, any, all, length, if◌then◌else◌,
}
use audio_book.Base.Text.{is_space}
use audio_book.Ingestion.Model.{Text, Unicode}
use audio_book.Ingestion.Text.{
  codes, same_text, text_length, is_digit, is_roman, trim, collapse, after_word, after_spaces,
}

-- `^\d{1,n}$` and `^[ivxlcdm]{1,n}$`
abbrev pub is_run : (ℕ → Bool) → ℕ → Text → Bool
is_run p n s = ltb 0 (length s) && leb (length s) n && all p s

-- `(page\s+)?`: the rest after it, if it is there.
unfoldable pub after_page : Text → Option Text
after_page s = elim (after_word (codes "page") s) [ none ↦ none | some rest ↦ after_spaces rest ]

unfoldable pub page_number_pattern : Text → Bool
page_number_pattern s =
    is_run is_digit 4 s || elim (after_page s) [ none ↦ false | some rest ↦ is_run is_digit 4 rest ]

unfoldable pub roman_numeral_pattern : Text → Bool
roman_numeral_pattern s = is_run is_roman 8 s

unfoldable pub normalize_for_comparison : Unicode → Text → Text
normalize_for_comparison u s = u.to_lower_case (collapse is_space 32 (trim s))

abbrev pub is_numeric : Text → Bool
is_numeric s = page_number_pattern s || roman_numeral_pattern s

unfoldable pub is_page_number_like : Unicode → Text → Bool
is_page_number_like u s = is_numeric (normalize_for_comparison u s)

pub data PositionOnPage : Type 0 where
  first last other : PositionOnPage

pub record PageLevelBlock : Type 0 where
  pub page_number : ℕ
  pub position_on_page : PositionOnPage
  pub text : Text

pub record NoiseDetectionResult : Type 0 where
  pub removed_texts : List Text
  pub page_number_pattern : Bool

abbrev pub same_position : PositionOnPage → PositionOnPage → Bool
same_position first first = true
same_position last last = true
same_position other other = true
same_position _ _ = false

-- `new Set(…).size`: a number counts where it does not occur again.
abbrev pub distinct_count : List ℕ → ℕ
distinct_count [] = 0
distinct_count (n ∷ ns) = (if any (λ m. m == n) ns then 0 else 1) + distinct_count ns

-- `counts.set(key, (counts.get(key) ?? 0) + 1)`, in a map that keeps the order of insertion.
abbrev pub count_key : Text → List (Text × ℕ) → List (Text × ℕ)
count_key key [] = (key, 1) ∷ []
count_key key ((k, n) ∷ counts) =
    let rest = count_key key counts in
    if same_text k key then (k, suc n) ∷ counts else (k, n) ∷ rest

unfoldable pub count_block : Unicode → PageLevelBlock → List (Text × ℕ) → List (Text × ℕ)
count_block u b counts =
    let key = normalize_for_comparison u b.text in
    if same_position b.position_on_page other
    then counts
    else if text_length key == 0 || ltb 120 (text_length key)
    then counts
    else count_key key counts

unfoldable pub count_blocks : Unicode → List PageLevelBlock → List (Text × ℕ) → List (Text × ℕ)
count_blocks u [] counts = counts
count_blocks u (b ∷ blocks) counts = count_blocks u blocks (count_block u b counts)

-- The threshold is counted in percent: `count / total >= threshold`.
abbrev pub reaches : ℕ → ℕ → ℕ → Bool
reaches percent total n = leb (percent * total) (n * 100)

unfoldable pub repeated_keys : ℕ → ℕ → List (Text × ℕ) → List Text
repeated_keys percent total [] = []
repeated_keys percent total ((k, n) ∷ counts) =
    let rest = repeated_keys percent total counts in
    if reaches percent total n then k ∷ rest else rest

unfoldable pub numeric_at : Unicode → PositionOnPage → List PageLevelBlock → ℕ
numeric_at u p [] = 0
numeric_at u p (b ∷ blocks) =
    (if same_position b.position_on_page p && is_page_number_like u b.text then 1 else 0)
    + numeric_at u p blocks

-- A position without numeric lines has no entry, so it does not reach a threshold of 0 either.
abbrev pub numeric_reaches : ℕ → ℕ → ℕ → Bool
numeric_reaches percent total n = ltb 0 n && reaches percent total n

unfoldable pub page_numbers : List PageLevelBlock → List ℕ
page_numbers [] = []
page_numbers (b ∷ blocks) = b.page_number ∷ page_numbers blocks

unfoldable pub detect_noise : Unicode → List PageLevelBlock → ℕ → NoiseDetectionResult
detect_noise u blocks percent =
    let total = distinct_count (page_numbers blocks) in
    let removed = repeated_keys percent total (count_blocks u blocks []) in
    if ltb total 3 then record { removed_texts = []; page_number_pattern = false } else record {
      removed_texts = removed;
      page_number_pattern =
          any is_numeric removed
          || numeric_reaches percent total (numeric_at u first blocks)
          || numeric_reaches percent total (numeric_at u last blocks);
    }
