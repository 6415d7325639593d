-- ===== src/Ingestion/Structure/Split.antt =====
-- What `splitIntoChapters` of packages/ingestion/src/structure/detect-structure.ts makes of the blocks,
-- for any way of reading off a block and a title.
use audio_book.Base.{
  Bool, true, false, Option, none, some, List, [], ◌∷◌, ◌++◌, append-nil, append_assoc, ◌≡◌, refl,
  sym, ap, ◌∙◌, inl, inr, Bool-cases, arith,
}
use audio_book.Ingestion.Model.{Text, Unicode, ExtractedBlock}
use audio_book.Ingestion.Structure.{
  RawChapter, SplitState, is_heading, is_empty, starts_new_chapter, spine_index, push_block,
  place_block, split_from, split_into_chapters,
}

-- What is read off each member, one after the other.
abbrev pub gather {ℓ κ} : {A : Type ℓ} {X : Type κ} → (A → List X) → List A → List X
gather f [] = []
gather f (x ∷ xs) = f x ++ gather f xs

pub gather-append {ℓ κ} :
    {A : Type ℓ} {X : Type κ} (f : A → List X) (xs ys : List A)
    → gather f (xs ++ ys) ≡ gather f xs ++ gather f ys
gather-append f [] ys = refl
gather-append f (x ∷ xs) ys =
    ap (λ l. f x ++ l) (gather-append f xs ys)
    ∙ sym (append_assoc (f x) (gather f xs) (gather f ys))

continues_chapter :
    (u : Unicode) (is_epub : Bool) (st : SplitState) (b : ExtractedBlock)
    → starts_new_chapter u is_epub st b ≡ false
    → is_empty st.chapters ≡ false
unfolding starts_new_chapter
continues_chapter u is_epub st b e = ground arith

module _ {X : Type 0} (title_part : Option Text → List X)
    (block_part : ExtractedBlock → List X) where
  abbrev pub chapter_part : RawChapter → List X
  chapter_part r = title_part r.title ++ gather block_part r.blocks

  chapter_part-push :
      (b : ExtractedBlock) (r : RawChapter)
      → chapter_part (record r { blocks = r.blocks ++ b ∷ [] }) ≡ chapter_part r ++ block_part b
  chapter_part-push b r =
      ap (λ l. title_part r.title ++ l)
        (gather-append block_part r.blocks (b ∷ [])
          ∙ ap (λ l. gather block_part r.blocks ++ l) (append-nil (block_part b)))
      ∙ sym (append_assoc (title_part r.title) (gather block_part r.blocks) (block_part b))

  gather-push_block :
      (b : ExtractedBlock) (rs : List RawChapter)
      → is_empty rs ≡ false
      → gather chapter_part (push_block b rs) ≡ gather chapter_part rs ++ block_part b
  unfolding push_block
  gather-push_block b [] e = cc
  gather-push_block b (r ∷ []) e =
      append-nil (chapter_part (record r { blocks = r.blocks ++ b ∷ [] }))
      ∙ chapter_part-push b r
      ∙ ap (λ l. l ++ block_part b) (sym (append-nil (chapter_part r)))
  gather-push_block b (r ∷ q ∷ rs) e =
      ap (λ l. chapter_part r ++ l) (gather-push_block b (q ∷ rs) refl)
      ∙ sym (append_assoc (chapter_part r) (gather chapter_part (q ∷ rs)) (block_part b))

  module _ (untitled : title_part none ≡ [])
      (titled : (b : ExtractedBlock)
        → is_heading b ≡ true
        → title_part (some b.text) ≡ block_part b)
      (u : Unicode) (is_epub : Bool) where
    gather-place_block :
        (st : SplitState) (b : ExtractedBlock)
        → gather chapter_part (place_block u is_epub st b)
          ≡ gather chapter_part st.chapters ++ block_part b
    unfolding place_block
    gather-place_block st b = elim (Bool-cases (starts_new_chapter u is_epub st b)) [
      | inr e ↦ rw e (gather-push_block b st.chapters (continues_chapter u is_epub st b e))
      | inl e ↦ elim (Bool-cases (is_heading b)) [
        | inl h ↦
            rw (e, h)
              (gather-append chapter_part st.chapters
                  (record { title = some b.text; blocks = [] } ∷ [])
                ∙ ap (λ l. gather chapter_part st.chapters ++ l)
                    (append-nil (title_part (some b.text) ++ [])
                      ∙ append-nil (title_part (some b.text))
                      ∙ titled b h))
        | inr h ↦
            rw (e, h)
              (gather-append chapter_part st.chapters
                  (record { title = none; blocks = b ∷ [] } ∷ [])
                ∙ ap (λ l. gather chapter_part st.chapters ++ l)
                    (append-nil (title_part none ++ (block_part b ++ []))
                      ∙ ap (λ l. l ++ (block_part b ++ [])) untitled
                      ∙ append-nil (block_part b)))
      ]
    ]

    gather-split_from :
        (st : SplitState) (blocks : List ExtractedBlock)
        → gather chapter_part (split_from u is_epub st blocks)
          ≡ gather chapter_part st.chapters ++ gather block_part blocks
    unfolding split_from
    gather-split_from st [] = sym (append-nil (gather chapter_part st.chapters))
    gather-split_from st (b ∷ blocks) =
        let after : SplitState = record {
          chapters = place_block u is_epub st b;
          last_spine_index = elim (spine_index b.locator) [
            | none ↦ st.last_spine_index
            | some i ↦ some i
          ];
        } in
        gather-split_from after blocks
        ∙ ap (λ l. l ++ gather block_part blocks) (gather-place_block st b)
        ∙ append_assoc (gather chapter_part st.chapters) (block_part b) (gather block_part blocks)

    -- Reading the chapters off is reading the blocks off: the split loses and moves nothing.
    pub gather-split_into_chapters :
        (blocks : List ExtractedBlock)
        → gather chapter_part (split_into_chapters u is_epub blocks) ≡ gather block_part blocks
    unfolding split_into_chapters
    gather-split_into_chapters blocks =
        gather-split_from (record { chapters = []; last_spine_index = none }) blocks
