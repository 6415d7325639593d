-- ===== src/Ingestion/Normalize/Fixed.antt =====
-- `normalizeText` of packages/ingestion/src/normalize/normalize.ts on a text that it has normalized.
use audio_book.Base.{
  ℕ, Bool, true, false, not, [], ◌∷◌, map, select, arith, ◌≡◌, refl, inl, inr, Bool-cases,
}
use audio_book.Ingestion.Model.{Text, Unicode}
use audio_book.Ingestion.Text.{trim, trim_start, collapse_from}
use audio_book.Ingestion.Normalize.{
  is_newline, is_soft_hyphen, is_blank, is_plain_space, newline_to_space, join_crlf, dehyphenate,
  unbroken, normalize_text,
}
use audio_book.Ingestion.Normalize.Passes.{
  Free, select-Free, join_crlf-Free, collapse_from-Free, collapse_from-Free_kept,
  newline_to_space-Free, dehyphenate-Free, trim-Free, select_unchanged, join_crlf_unchanged,
  collapse_unchanged, newline_to_space_unchanged, dehyphenate_unchanged,
}
use audio_book.Ingestion.Normalize.Spaces.{
  is_tab, Spaced, collapse_from-Spaced, trim_start-Spaced, trim_end-Spaced, collapse_of_single,
  is_blank-SpaceOnly, is_plain_space-SpaceOnly, trim-trim,
}

-- What `normalizeText` makes of a text, and leaves alone when it meets it.
abbrev pub IsTidy : Text → Type 0
IsTidy s = Free is_soft_hyphen s × Free is_tab s × Free is_newline s × Spaced s × (trim s ≡ s)

newline_to_space-Free_newline : (s : Text) → Free is_newline (map newline_to_space s)
newline_to_space-Free_newline [] = tt
newline_to_space-Free_newline (c ∷ s) = elim (Bool-cases (is_newline c)) [
  | inl e ↦ rw e (refl, newline_to_space-Free_newline s)
  | inr e ↦ rw e (e, newline_to_space-Free_newline s)
]

-- The text of `unbroken` after its runs of spaces and tabs were replaced.
abbrev blanks_joined : Text → Text
blanks_joined s =
    collapse_from is_blank 32 false (join_crlf (select (λ c. not (is_soft_hyphen c)) s))

module _ (u : Unicode) where
  unbroken_tidy : (d : Bool) (s : Text) → IsTidy s → unbroken u d s ≡ s
  unfolding unbroken
  unbroken_tidy true s (soft, tabs, lines, spaced, trimmed) =
      rw
        (
          select_unchanged is_soft_hyphen s soft,
          join_crlf_unchanged s lines,
          (collapse_of_single is_blank s (is_blank-SpaceOnly s tabs) spaced).0,
          collapse_unchanged is_newline 10 s lines,
          dehyphenate_unchanged u s lines,
        )
        (newline_to_space_unchanged s lines)
  unbroken_tidy false s (soft, tabs, lines, spaced, trimmed) =
      rw
        (
          select_unchanged is_soft_hyphen s soft,
          join_crlf_unchanged s lines,
          (collapse_of_single is_blank s (is_blank-SpaceOnly s tabs) spaced).0,
        )
        (collapse_unchanged is_newline 32 s lines)

  unbroken-Free :
      (q : ℕ → Bool) (d : Bool) (s : Text)
      → q 10 ≡ false
      → q 32 ≡ false
      → Free q (blanks_joined s)
      → Free q (unbroken u d s)
  unfolding unbroken
  unbroken-Free q true s line space h =
      newline_to_space-Free q (dehyphenate u (collapse_from is_newline 10 false (blanks_joined s)))
        space
        (dehyphenate-Free q u (collapse_from is_newline 10 false (blanks_joined s))
          (collapse_from-Free_kept q is_newline 10 false (blanks_joined s) line h))
  unbroken-Free q false s line space h =
      collapse_from-Free_kept q is_newline 32 false (blanks_joined s) space h

  unbroken-Free_newline : (d : Bool) (s : Text) → Free is_newline (unbroken u d s)
  unfolding unbroken
  unbroken-Free_newline true s =
      newline_to_space-Free_newline
        (dehyphenate u (collapse_from is_newline 10 false (blanks_joined s)))
  unbroken-Free_newline false s =
      collapse_from-Free is_newline is_newline 32 false (blanks_joined s) refl (λ c e. e)

  -- What the last steps keep.
  normalize_text-Free :
      (q : ℕ → Bool) (d : Bool) (s : Text)
      → q 32 ≡ false
      → Free q (unbroken u d (u.nfc s))
      → Free q (normalize_text u d s)
  unfolding normalize_text
  normalize_text-Free q d s space h =
      trim-Free q (collapse_from is_plain_space 32 false (unbroken u d (u.nfc s)))
        (collapse_from-Free_kept q is_plain_space 32 false (unbroken u d (u.nfc s)) space h)

  normalize_text-Spaced : (d : Bool) (s : Text) → Spaced (normalize_text u d s)
  unfolding normalize_text trim
  normalize_text-Spaced d s =
      let joined = collapse_from is_plain_space 32 false (unbroken u d (u.nfc s)) in
      trim_end-Spaced (trim_start joined)
        (trim_start-Spaced joined (collapse_from-Spaced false (unbroken u d (u.nfc s))))

  normalize_text-trimmed :
      (d : Bool) (s : Text) → trim (normalize_text u d s) ≡ normalize_text u d s
  unfolding normalize_text
  normalize_text-trimmed d s =
      trim-trim (collapse_from is_plain_space 32 false (unbroken u d (u.nfc s)))

  pub normalize_text-IsTidy : (d : Bool) (s : Text) → IsTidy (normalize_text u d s)
  normalize_text-IsTidy d s =
      let bare = select (λ c. not (is_soft_hyphen c)) (u.nfc s) in
      let soft =
        collapse_from-Free_kept is_soft_hyphen is_blank 32 false (join_crlf bare) refl
          (join_crlf-Free is_soft_hyphen bare (select-Free is_soft_hyphen (u.nfc s))) in
      let tabs =
        collapse_from-Free is_tab is_blank 32 false (join_crlf bare) refl (λ c e. ground arith) in
      (
        normalize_text-Free is_soft_hyphen d s refl
            (unbroken-Free is_soft_hyphen d (u.nfc s) refl refl soft),
        normalize_text-Free is_tab d s refl (unbroken-Free is_tab d (u.nfc s) refl refl tabs),
        normalize_text-Free is_newline d s refl (unbroken-Free_newline d (u.nfc s)),
        normalize_text-Spaced d s,
        normalize_text-trimmed d s,
      )

  normalize_text_tidy : (d : Bool) (s : Text) → u.nfc s ≡ s → IsTidy s → normalize_text u d s ≡ s
  unfolding normalize_text
  normalize_text_tidy d s composed (soft, tabs, lines, spaced, trimmed) =
      rw
        (
          composed,
          unbroken_tidy d s (soft, tabs, lines, spaced, trimmed),
          (collapse_of_single is_plain_space s (is_plain_space-SpaceOnly s) spaced).0,
        )
        trimmed

-- A text that was normalized is not changed when it is normalized again, by whichever rule for
-- hyphens, as long as it is still composed: canonical composition leaves it alone.
pub normalize_text_again :
    (u : Unicode) (first second : Bool) (s : Text)
    → u.nfc (normalize_text u first s) ≡ normalize_text u first s
    → normalize_text u second (normalize_text u first s) ≡ normalize_text u first s
normalize_text_again u first second s composed =
    normalize_text_tidy u second (normalize_text u first s) composed
      (normalize_text-IsTidy u first s)
