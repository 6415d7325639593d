-- ===== src/Ingestion/Structure/Spine.antt =====
-- The positions that `detectStructure` of packages/ingestion/src/structure/detect-structure.ts gives to
-- paragraphs and the bounds of its chapters.
use audio_book.Base.{
  ℕ, zero, suc, ◌+◌, ◌≤◌, Bool, List, [], ◌∷◌, ◌++◌, ltb, length, length-append, ◌≡◌, refl, sym, ap,
  ap₂, ◌∙◌, All, arith, if◌then◌else◌,
}
use audio_book.Ingestion.Model.{Unicode, ExtractedDocument}
use audio_book.Ingestion.Structure.{
  Draft, CanonicalChapter, RawChapter, split_chapter_into_sections, split_into_chapters,
}
use audio_book.Ingestion.Structure.Place.{
  number_paragraphs, positions, least, greatest, least_or, greatest_or, place_chapter,
  place_chapters, detect_structure, is_epub,
}
use audio_book.Ingestion.Structure.Split.{gather}

-- `n` numbers from a first one on.
abbrev pub count_from : ℕ → ℕ → List ℕ
count_from start zero = []
count_from start (suc n) = start ∷ count_from (suc start) n

abbrev pub chapter_positions : CanonicalChapter → List ℕ
chapter_positions c = positions c.paragraphs

abbrev pub Brackets : CanonicalChapter → Type 0
Brackets c = All (λ n. (c.spine_start ≤ n) × (n ≤ c.spine_end)) (positions c.paragraphs)

count_from-append :
    (start m n : ℕ) → count_from start m ++ count_from (start + m) n ≡ count_from start (m + n)
count_from-append start zero n =
    let same : start + 0 ≡ start = omega arith in
    let none_before : n ≡ 0 + n = omega arith in
    ap (λ k. count_from k n) same ∙ ap (count_from start) none_before
count_from-append start (suc m) n =
    let moved : start + suc m ≡ suc start + m = omega arith in
    let total : suc (m + n) ≡ suc m + n = omega arith in
    ap (λ k. start ∷ (count_from (suc start) m ++ count_from k n)) moved
    ∙ ap (◌∷◌ start) (count_from-append (suc start) m n)
    ∙ ap (count_from start) total

length-count_from : (start n : ℕ) → length (count_from start n) ≡ n
length-count_from start zero = refl
length-count_from start (suc n) = ap suc (length-count_from (suc start) n)

number_paragraphs-positions :
    (order spine : ℕ) (ds : List Draft)
    → positions (number_paragraphs order spine ds) ≡ count_from spine (length ds)
unfolding number_paragraphs
number_paragraphs-positions order spine [] = refl
number_paragraphs-positions order spine (d ∷ ds) =
    ap (◌∷◌ spine) (number_paragraphs-positions (suc order) (suc spine) ds)

least_le : (n : ℕ) (ms : List ℕ) → (least n ms ≤ n) × All (λ m. least n ms ≤ m) ms
least_le n [] = (omega arith, tt)
least_le n (m ∷ ms) =
    let (low, rest) = least_le (if ltb m n then m else n) ms in
    (ground (arith, low), (ground (arith, low), rest))

greatest_ge : (n : ℕ) (ms : List ℕ) → (n ≤ greatest n ms) × All (λ m. m ≤ greatest n ms) ms
greatest_ge n [] = (omega arith, tt)
greatest_ge n (m ∷ ms) =
    let (high, rest) = greatest_ge (if ltb n m then m else n) ms in
    (ground (arith, high), (ground (arith, high), rest))

bounds_both :
    (low high : ℕ) (ns : List ℕ)
    → All (λ n. low ≤ n) ns
    → All (λ n. n ≤ high) ns
    → All (λ n. (low ≤ n) × (n ≤ high)) ns
bounds_both low high [] l h = tt
bounds_both low high (n ∷ ns) (l, ls) (h, hs) = ((l, h), bounds_both low high ns ls hs)

-- Numbers lie between the least and the greatest of them.
least_or-greatest_or :
    (otherwise : ℕ) (ns : List ℕ)
    → All (λ n. (least_or otherwise ns ≤ n) × (n ≤ greatest_or otherwise ns)) ns
least_or-greatest_or otherwise [] = tt
least_or-greatest_or otherwise (n ∷ ns) =
    bounds_both (least n ns) (greatest n ns) (n ∷ ns) (least_le n ns) (greatest_ge n ns)

module _ (u : Unicode) (d : Bool) where
  place_chapters-Brackets :
      (index spine : ℕ) (rs : List RawChapter)
      → All Brackets (place_chapters u d index spine rs).chapters
  unfolding place_chapters place_chapter
  place_chapters-Brackets index spine [] = tt
  place_chapters-Brackets index spine (r ∷ rs) =
      let ds = (split_chapter_into_sections u d r.blocks).paragraphs in
      (
        least_or-greatest_or (spine + length ds) (positions (number_paragraphs 0 spine ds)),
        place_chapters-Brackets (suc index) (spine + length ds) rs,
      )

  place_chapters-positions :
      (index spine : ℕ) (rs : List RawChapter)
      → let found = gather chapter_positions (place_chapters u d index spine rs).chapters in
        found ≡ count_from spine (length found)
  unfolding place_chapters place_chapter
  place_chapters-positions index spine [] = refl
  place_chapters-positions index spine (r ∷ rs) =
      let ds = (split_chapter_into_sections u d r.blocks).paragraphs in
      let here = number_paragraphs-positions 0 spine ds in
      let later =
        gather chapter_positions (place_chapters u d (suc index) (spine + length ds) rs).chapters in
      let total : length (positions (number_paragraphs 0 spine ds) ++ later)
          ≡ length ds + length later =
        length-append (positions (number_paragraphs 0 spine ds)) later
        ∙ ap (λ n. n + length later) (ap length here ∙ length-count_from spine (length ds)) in
      ap₂ (λ k l. k ++ l) here (place_chapters-positions (suc index) (spine + length ds) rs)
      ∙ count_from-append spine (length ds) (length later)
      ∙ ap (count_from spine) (sym total)

-- The spine positions of the paragraphs, read through all chapters, count up from 0 without a gap or
-- a repetition, and each chapter's bounds enclose those of its own paragraphs.
pub detect_structure_positions :
    (u : Unicode) (dehyphenates : Bool) (document : ExtractedDocument)
    → let chapters = (detect_structure u dehyphenates document).chapters in
      let found = gather chapter_positions chapters in
      (found ≡ count_from 0 (length found)) × All Brackets chapters
unfolding detect_structure
detect_structure_positions u dehyphenates document =
    let raw = split_into_chapters u (is_epub document.source_kind) document.blocks in
    (
      place_chapters-positions u dehyphenates 0 0 raw,
      place_chapters-Brackets u dehyphenates 0 0 raw,
    )
