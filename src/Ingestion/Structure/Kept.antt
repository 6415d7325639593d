-- ===== src/Ingestion/Structure/Kept.antt =====
-- What `detectStructure` of packages/ingestion/src/structure/detect-structure.ts keeps of the text of a
-- document: every heading, and the raw text of every block that is one of a paragraph's.
use audio_book.Base.{
  ℕ, suc, ◌+◌, Bool, Option, none, some, List, [], ◌∷◌, ◌++◌, append-nil, append_assoc, ◌≡◌, refl,
  sym, ap, ap₂, ◌∙◌, inl, inr, Bool-cases, if◌then◌else◌, length, map,
}
use audio_book.Ingestion.Model.{Text, Unicode, ExtractedBlock, ExtractedDocument}
use audio_book.Ingestion.Normalize.{normalize_text}
use audio_book.Ingestion.Structure.{
  Draft, CanonicalParagraph, CanonicalChapter, RawChapter, SectionTitle, Sectioned, is_heading,
  is_kept, continues, merge_block, draft_of, add_block, current_section, section_step,
  sections_from, split_chapter_into_sections, split_into_chapters,
}
use audio_book.Ingestion.Structure.Place.{
  number_paragraphs, place_section, place_chapter, place_chapters, detect_structure, is_epub,
  least_or, greatest_or, positions,
}
use audio_book.Ingestion.Structure.Split.{
  gather, gather-append, chapter_part, gather-split_into_chapters,
}

abbrev pub line : Text → Text
line s = s ++ 10 ∷ []

-- The raw text of a block that is kept, as a line, and a heading as a title.
abbrev pub kept_line : Unicode → Bool → ExtractedBlock → Text
kept_line u dehyphenates b =
    if is_heading b then [] else if is_kept u dehyphenates b then line b.text else []

abbrev pub heading_of : ExtractedBlock → List Text
heading_of b = if is_heading b then b.text ∷ [] else []

abbrev pub title_of : Option Text → List Text
title_of none = []
title_of (some title) = title ∷ []

abbrev pub draft_line : Draft → Text
draft_line d = line d.raw_text

abbrev section_title : SectionTitle → List Text
section_title s = s.title ∷ []

draft_line-merge :
    (text : Text) (b : ExtractedBlock) (d : Draft)
    → draft_line (merge_block text b d) ≡ draft_line d ++ line b.text
unfolding merge_block
draft_line-merge text b d =
    append_assoc d.raw_text (10 ∷ b.text) (10 ∷ [])
    ∙ sym (append_assoc d.raw_text (10 ∷ []) (line b.text))

module _ (u : Unicode) (d : Bool) where
  add_block-lines :
      (section : Option ℕ) (text : Text) (b : ExtractedBlock) (ds : List Draft)
      → gather draft_line (add_block u d section text b ds) ≡ gather draft_line ds ++ line b.text
  unfolding add_block draft_of
  add_block-lines section text b [] = append-nil (line b.text)
  add_block-lines section text b (p ∷ []) = elim (Bool-cases (continues u d section text p)) [
    | inl e ↦ rw e (
        append-nil (draft_line (merge_block text b p))
        ∙ draft_line-merge text b p
        ∙ ap (λ l. l ++ line b.text) (sym (append-nil (draft_line p))))
    | inr e ↦
        rw e (ap₂ (λ k l. k ++ l) (sym (append-nil (draft_line p))) (append-nil (line b.text)))
  ]
  add_block-lines section text b (p ∷ q ∷ ds) =
      ap (λ l. draft_line p ++ l) (add_block-lines section text b (q ∷ ds))
      ∙ sym (append_assoc (draft_line p) (gather draft_line (q ∷ ds)) (line b.text))

  section_step-lines :
      (st : Sectioned) (b : ExtractedBlock)
      → gather draft_line (section_step u d st b).paragraphs
        ≡ gather draft_line st.paragraphs ++ kept_line u d b
  unfolding section_step
  section_step-lines st b = elim (Bool-cases (is_heading b)) [
    | inl h ↦ rw h (sym (append-nil (gather draft_line st.paragraphs)))
    | inr h ↦ elim (Bool-cases (is_kept u d b)) [
      | inl k ↦
          rw (h, k)
            (add_block-lines (current_section st.sections_list) (normalize_text u d b.text) b
              st.paragraphs)
      | inr k ↦ rw (h, k) (sym (append-nil (gather draft_line st.paragraphs)))
    ]
  ]

  section_step-titles :
      (st : Sectioned) (b : ExtractedBlock)
      → gather section_title (section_step u d st b).sections_list
        ≡ gather section_title st.sections_list ++ heading_of b
  unfolding section_step
  section_step-titles st b = elim (Bool-cases (is_heading b)) [
    | inl h ↦ rw h (
        gather-append section_title st.sections_list
          (record { order_index = length st.sections_list; title = b.text } ∷ []))
    | inr h ↦ elim (Bool-cases (is_kept u d b)) [
      | inl k ↦ rw (h, k) (sym (append-nil (gather section_title st.sections_list)))
      | inr k ↦ rw (h, k) (sym (append-nil (gather section_title st.sections_list)))
    ]
  ]

  -- A reading of the state that each block adds to is a reading of the blocks.
  sections_from-gather :
      {X : Type 0} (read : Sectioned → List X) (part : ExtractedBlock → List X)
      → ((st : Sectioned) (b : ExtractedBlock) → read (section_step u d st b) ≡ read st ++ part b)
      → (st : Sectioned) (blocks : List ExtractedBlock)
      → read (sections_from u d st blocks) ≡ read st ++ gather part blocks
  unfolding sections_from
  sections_from-gather read part step st [] = sym (append-nil (read st))
  sections_from-gather read part step st (b ∷ blocks) =
      sections_from-gather read part step (section_step u d st b) blocks
      ∙ ap (λ l. l ++ gather part blocks) (step st b)
      ∙ append_assoc (read st) (part b) (gather part blocks)

  split-lines :
      (blocks : List ExtractedBlock)
      → gather draft_line (split_chapter_into_sections u d blocks).paragraphs
        ≡ gather (kept_line u d) blocks
  unfolding split_chapter_into_sections
  split-lines blocks =
      sections_from-gather (λ st. gather draft_line st.paragraphs) (kept_line u d)
        section_step-lines (record { sections_list = []; paragraphs = [] }) blocks

  split-titles :
      (blocks : List ExtractedBlock)
      → gather section_title (split_chapter_into_sections u d blocks).sections_list
        ≡ gather heading_of blocks
  unfolding split_chapter_into_sections
  split-titles blocks =
      sections_from-gather (λ st. gather section_title st.sections_list) heading_of
        section_step-titles (record { sections_list = []; paragraphs = [] }) blocks

abbrev pub paragraph_line : CanonicalParagraph → Text
paragraph_line p = draft_line p.draft

abbrev pub chapter_lines : CanonicalChapter → Text
chapter_lines c = gather paragraph_line c.paragraphs

-- The title of a chapter and those of its sections.
abbrev pub chapter_titles : CanonicalChapter → List Text
chapter_titles c = title_of c.title ++ gather (λ s. title_of s.title) c.sections

number_paragraphs-lines :
    (order spine : ℕ) (ds : List Draft)
    → gather paragraph_line (number_paragraphs order spine ds) ≡ gather draft_line ds
unfolding number_paragraphs
number_paragraphs-lines order spine [] = refl
number_paragraphs-lines order spine (p ∷ ds) =
    ap (λ l. draft_line p ++ l) (number_paragraphs-lines (suc order) (suc spine) ds)

place_section-titles :
    (first last : ℕ) (paragraphs : List CanonicalParagraph) (sections : List SectionTitle)
    → gather (λ s. title_of s.title) (map (place_section first last paragraphs) sections)
      ≡ gather section_title sections
unfolding place_section
place_section-titles first last paragraphs [] = refl
place_section-titles first last paragraphs (s ∷ sections) =
    ap (λ l. s.title ∷ l) (place_section-titles first last paragraphs sections)

module _ (u : Unicode) (d : Bool) where
  place_chapters-lines :
      (index spine : ℕ) (rs : List RawChapter)
      → gather chapter_lines (place_chapters u d index spine rs).chapters
        ≡ gather (chapter_part (λ title. []) (kept_line u d)) rs
  unfolding place_chapters place_chapter
  place_chapters-lines index spine [] = refl
  place_chapters-lines index spine (r ∷ rs) =
      let ds = (split_chapter_into_sections u d r.blocks).paragraphs in
      ap₂ (λ k l. k ++ l) (number_paragraphs-lines 0 spine ds ∙ split-lines u d r.blocks)
        (place_chapters-lines (suc index) (spine + length ds) rs)

  place_chapters-titles :
      (index spine : ℕ) (rs : List RawChapter)
      → gather chapter_titles (place_chapters u d index spine rs).chapters
        ≡ gather (chapter_part title_of heading_of) rs
  unfolding place_chapters place_chapter
  place_chapters-titles index spine [] = refl
  place_chapters-titles index spine (r ∷ rs) =
      let split = split_chapter_into_sections u d r.blocks in
      let paragraphs = number_paragraphs 0 spine split.paragraphs in
      let counter = spine + length split.paragraphs in
      ap₂ (λ k l. (title_of r.title ++ k) ++ l)
        (place_section-titles (least_or counter (positions paragraphs))
            (greatest_or counter (positions paragraphs)) paragraphs split.sections_list
          ∙ split-titles u d r.blocks)
        (place_chapters-titles (suc index) counter rs)

-- The paragraphs of all chapters, read as lines of raw text, are the lines of the blocks that are
-- neither headings, page artifacts nor page numbers and have text, and the titles of chapters and
-- sections are the headings: nothing is lost, repeated or moved, whatever is merged.
pub detect_structure_keeps :
    (u : Unicode) (dehyphenates : Bool) (document : ExtractedDocument)
    → let result = detect_structure u dehyphenates document in
      (gather chapter_lines result.chapters ≡ gather (kept_line u dehyphenates) document.blocks)
      × (gather chapter_titles result.chapters ≡ gather heading_of document.blocks)
unfolding detect_structure
detect_structure_keeps u dehyphenates document =
    let raw = split_into_chapters u (is_epub document.source_kind) document.blocks in
    (
      place_chapters-lines u dehyphenates 0 0 raw
          ∙ gather-split_into_chapters (λ title. []) (kept_line u dehyphenates) refl
              (λ b e. rw e refl) u (is_epub document.source_kind) document.blocks,
      place_chapters-titles u dehyphenates 0 0 raw
          ∙ gather-split_into_chapters title_of heading_of refl (λ b e. rw e refl) u
              (is_epub document.source_kind) document.blocks,
    )
