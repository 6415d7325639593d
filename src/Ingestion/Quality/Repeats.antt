-- ===== src/Ingestion/Quality/Repeats.antt =====
-- When `checkDuplicateParagraphs` of packages/ingestion/src/quality-report.ts passes.
use audio_book.Base.{
  ℕ, true, false, none, some, List, [], ◌∷◌, ◌++◌, ltb, ◌≡◌, ◌↔◌, refl, sym, ap, ◌∙◌, subst, inl,
  inr, Bool-cases, Option-cases, All, arith, is_some, map, if◌then◌else◌,
}
use audio_book.Ingestion.Model.{Text}
use audio_book.Ingestion.Text.{same_text, text_length}
use audio_book.Ingestion.Structure.{CanonicalParagraph, CanonicalChapter, is_empty}
use audio_book.Ingestion.Structure.Split.{gather}
use audio_book.Ingestion.Quality.{
  pass, warn, add_id, seen_in, Scan, scan_paragraph, scan_paragraphs, scan_chapters,
  check_duplicate_paragraphs,
}
use audio_book.Ingestion.Quality.Checks.{passes_if}

-- The paragraphs with the index of their chapter, as the two loops meet them.
abbrev pub entries : List CanonicalChapter → List (ℕ × CanonicalParagraph)
entries cs = gather (λ c. map (λ p. (c.order_index, p)) c.paragraphs) cs

scan_entries : List (ℕ × CanonicalParagraph) → Scan → Scan
scan_entries [] st = st
scan_entries ((i, p) ∷ es) st = scan_entries es (scan_paragraph i p st)

scan_entries-append :
    (xs ys : List (ℕ × CanonicalParagraph)) (st : Scan)
    → scan_entries (xs ++ ys) st ≡ scan_entries ys (scan_entries xs st)
unfolding scan_entries
scan_entries-append [] ys st = refl
scan_entries-append ((i, p) ∷ xs) ys st = scan_entries-append xs ys (scan_paragraph i p st)

scan_paragraphs_entries :
    (i : ℕ) (ps : List CanonicalParagraph) (st : Scan)
    → scan_paragraphs i ps st ≡ scan_entries (map (λ p. (i, p)) ps) st
unfolding scan_paragraphs scan_entries
scan_paragraphs_entries i [] st = refl
scan_paragraphs_entries i (p ∷ ps) st = scan_paragraphs_entries i ps (scan_paragraph i p st)

scan_chapters_entries :
    (cs : List CanonicalChapter) (st : Scan) → scan_chapters cs st ≡ scan_entries (entries cs) st
unfolding scan_chapters scan_entries
scan_chapters_entries [] st = refl
scan_chapters_entries (c ∷ cs) st =
    scan_chapters_entries cs (scan_paragraphs c.order_index c.paragraphs st)
    ∙ ap (scan_entries (entries cs)) (scan_paragraphs_entries c.order_index c.paragraphs st)
    ∙ sym (scan_entries-append (map (λ p. (c.order_index, p)) c.paragraphs) (entries cs) st)

-- The texts of at least 40 units.
abbrev pub long_texts : List (ℕ × CanonicalParagraph) → List Text
long_texts [] = []
long_texts ((i, p) ∷ es) =
    if ltb (text_length p.draft.text) 40 then long_texts es else p.draft.text ∷ long_texts es

-- Each text differs from those named and from those before it.
abbrev pub Novel : List Text → List Text → Type 0
Novel names [] = Unit
Novel names (t ∷ ts) = All (λ s. same_text s t ≡ false) names × Novel (names ++ t ∷ []) ts

abbrev names_of : List (Text × ℕ) → List Text
names_of [] = []
names_of ((t, i) ∷ seen) = t ∷ names_of seen

names_of-append :
    (seen : List (Text × ℕ)) (t : Text) (i : ℕ)
    → names_of (seen ++ (t, i) ∷ []) ≡ names_of seen ++ t ∷ []
names_of-append [] t i = refl
names_of-append ((s, j) ∷ seen) t i = ap (◌∷◌ s) (names_of-append seen t i)

seen_in_none :
    (t : Text) (seen : List (Text × ℕ))
    → (is_some (seen_in t seen) ≡ false) ↔ All (λ s. same_text s t ≡ false) (names_of seen)
seen_in_none t [] = (λ _. tt, λ _. refl)
seen_in_none t ((s, i) ∷ seen) =
    let (to, from) = seen_in_none t seen in
    elim (Bool-cases (same_text s t)) [
      | inl e ↦ rw e ((λ no. cc), λ h. h.0)
      | inr e ↦ rw e ((λ h. (refl, to h)), λ h. from h.1)
    ]

add_id_kept : (i : ℕ) (js : List ℕ) → is_empty (add_id i js) ≡ false
add_id_kept i [] = refl
add_id_kept i (j ∷ js) = ground arith

scan_paragraph-affected :
    (i : ℕ) (p : CanonicalParagraph) (st : Scan)
    → is_empty st.affected ≡ false
    → is_empty (scan_paragraph i p st).affected ≡ false
unfolding scan_paragraph
scan_paragraph-affected i p st h = elim (Bool-cases (ltb (text_length p.draft.text) 40)) [
  | inl e ↦ rw e h
  | inr e ↦ elim (Option-cases (seen_in p.draft.text st.seen)) [
    | inl n ↦ rw (e, n) h
    | inr (j, n) ↦ rw (e, n) (add_id_kept i (add_id j st.affected))
  ]
]

scan_entries-affected :
    (es : List (ℕ × CanonicalParagraph)) (st : Scan)
    → is_empty st.affected ≡ false
    → is_empty (scan_entries es st).affected ≡ false
unfolding scan_entries
scan_entries-affected [] st h = h
scan_entries-affected ((i, p) ∷ es) st h =
    scan_entries-affected es (scan_paragraph i p st) (scan_paragraph-affected i p st h)

module _ (i : ℕ) (p : CanonicalParagraph) (st : Scan) where
  scan_paragraph_short : ltb (text_length p.draft.text) 40 ≡ true → scan_paragraph i p st ≡ st
  unfolding scan_paragraph
  scan_paragraph_short e = rw e refl

  scan_paragraph_novel :
      ltb (text_length p.draft.text) 40 ≡ false
      → seen_in p.draft.text st.seen ≡ none
      → scan_paragraph i p st ≡ record st { seen = st.seen ++ (p.draft.text, i) ∷ [] }
  unfolding scan_paragraph
  scan_paragraph_novel e n = rw (e, n) refl

  scan_paragraph_known :
      (j : ℕ)
      → ltb (text_length p.draft.text) 40 ≡ false
      → seen_in p.draft.text st.seen ≡ some j
      → is_empty (scan_paragraph i p st).affected ≡ false
  unfolding scan_paragraph
  scan_paragraph_known j e n = rw (e, n) (add_id_kept i (add_id j st.affected))

-- No paragraph is marked from here on exactly if every long text is a new one.
unfoldable Unmarked : List (ℕ × CanonicalParagraph) → List Text → List Text → Scan → Type 0
Unmarked es names ts st = (is_empty (scan_entries es st).affected ≡ true) ↔ Novel names ts

scan_entries_novel :
    (es : List (ℕ × CanonicalParagraph)) (st : Scan)
    → is_empty st.affected ≡ true
    → Unmarked es (names_of st.seen) (long_texts es) st
unfolding scan_entries Unmarked
scan_entries_novel [] st h = (λ _. tt, λ _. h)
scan_entries_novel ((i, p) ∷ es) st h = elim (Bool-cases (ltb (text_length p.draft.text) 40)) [
  | inl e ↦
      let rest =
        subst (Unmarked es (names_of st.seen) (long_texts es)) (sym (scan_paragraph_short i p st e))
          (scan_entries_novel es st h) in
      rw e rest
  | inr e ↦ elim (Option-cases (seen_in p.draft.text st.seen)) [
    | inl n ↦
        let grown : Scan = record st { seen = st.seen ++ (p.draft.text, i) ∷ [] } in
        let (to, from) =
          subst (λ names. Unmarked es names (long_texts es) (scan_paragraph i p st))
            (names_of-append st.seen p.draft.text i)
            (subst (Unmarked es (names_of grown.seen) (long_texts es))
              (sym (scan_paragraph_novel i p st e n)) (scan_entries_novel es grown h)) in
        let unseen = (seen_in_none p.draft.text st.seen).0 (ap is_some n) in
        rw e ((λ g. (unseen, to g)), λ g. from g.1)
    | inr (j, n) ↦
        let marked =
          scan_entries-affected es (scan_paragraph i p st) (scan_paragraph_known i p st j e n) in
        rw e (
          (λ g. let clash : true ≡ false = sym g ∙ marked in cc),
          λ g.
              let clash : true ≡ false =
                sym (ap is_some n) ∙ (seen_in_none p.draft.text st.seen).1 g.0 in
              cc,
        )
  ]
]

-- No long paragraph repeats an earlier one.
abbrev pub Unrepeated : List CanonicalChapter → Type 0
Unrepeated cs = Novel [] (long_texts (entries cs))

pub check_duplicate_paragraphs_passes :
    (cs : List CanonicalChapter) → ((check_duplicate_paragraphs cs).outcome ≡ pass) ↔ Unrepeated cs
unfolding check_duplicate_paragraphs Unmarked
check_duplicate_paragraphs_passes cs =
    let start : Scan = record { seen = []; affected = [] } in
    passes_if (is_empty (scan_chapters cs start).affected) warn
      (subst (λ st. (is_empty st.affected ≡ true) ↔ Unrepeated cs)
        (sym (scan_chapters_entries cs start)) (scan_entries_novel (entries cs) start refl))
      (λ no. cc)
