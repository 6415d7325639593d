-- ===== src/Ingestion/Markdown.antt =====
-- packages/ingestion/src/canonical/build-canonical.ts: `renderMarkdown`.
use audio_book.Base.{
  ℕ, suc, zero, ◌+◌, ◌/◌, ◌%◌, Option, none, some, List, [], ◌∷◌, ◌++◌, ◌==◌, find, ltb,
  if◌then◌else◌,
}
use audio_book.Ingestion.Model.{Text}
use audio_book.Ingestion.Text.{codes, trim}
use audio_book.Ingestion.Structure.{
  CanonicalParagraph, CanonicalSection, CanonicalChapter, is_empty, same_index,
}

-- A number in decimal; as much fuel as the number is enough for its digits.
abbrev decimal_from : ℕ → ℕ → Text
decimal_from zero n = (n + 48) ∷ []
decimal_from (suc fuel) n =
    let higher = decimal_from fuel (n / 10) in
    if ltb n 10 then (n + 48) ∷ [] else higher ++ (n % 10 + 48) ∷ []

unfoldable pub decimal : ℕ → Text
decimal n = decimal_from n n

abbrev pub join_lines : List Text → Text
join_lines [] = []
join_lines (t ∷ []) = t
join_lines (t ∷ s ∷ ts) = t ++ 10 ∷ join_lines (s ∷ ts)

unfoldable pub chapter_title : CanonicalChapter → Text
chapter_title c = elim c.title [
  | none ↦ codes "Chapter " ++ decimal (c.order_index + 1)
  | some title ↦ title
]

-- The heading of the section that a paragraph begins, if it has a title.
unfoldable pub section_heading : List CanonicalSection → Option ℕ → List Text
section_heading sections none = []
section_heading sections (some i) = elim (find (λ s. s.order_index == i) sections) [
  | none ↦ []
  | some s ↦ elim s.title [
    | none ↦ []
    | some title ↦ if is_empty title then [] else (codes "## " ++ title) ∷ [] ∷ []
  ]
]

unfoldable pub paragraph_parts :
    List CanonicalSection → Option ℕ → List CanonicalParagraph → List Text
paragraph_parts sections current [] = []
paragraph_parts sections current (p ∷ ps) =
    let section = p.draft.section_order_index in
    let rest = paragraph_parts sections section ps in
    let begun = p.draft.text ∷ [] ∷ rest in
    if same_index section current then begun else section_heading sections section ++ begun

unfoldable pub markdown_parts : List CanonicalChapter → List Text
markdown_parts [] = []
markdown_parts (c ∷ cs) =
    (codes "# " ++ chapter_title c) ∷ [] ∷ paragraph_parts c.sections none c.paragraphs
    ++ markdown_parts cs

unfoldable pub render_markdown : List CanonicalChapter → Text
render_markdown chapters = trim (join_lines (markdown_parts chapters)) ++ 10 ∷ []
