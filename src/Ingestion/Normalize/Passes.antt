-- ===== src/Ingestion/Normalize/Passes.antt =====
-- What each replacement of packages/ingestion/src/normalize/normalize.ts does to a class of
-- characters that a text is free of.
use audio_book.Base.{
  ℕ, Bool, true, false, ◌&&◌, not, [], ◌∷◌, ◌==◌, map, select, if◌then◌else◌, All, arith, ◌≡◌, refl,
  ap, inl, inr, Bool-cases,
}
use audio_book.Base.Text.{is_space}
use audio_book.Ingestion.Model.{Text, Unicode}
use audio_book.Ingestion.Text.{trim, trim_start, trim_end, collapse_from, same_text}
use audio_book.Ingestion.Normalize.{
  begins, is_newline, newline_to_space, join_crlf, Search, outside, at_newline, taken, after_letter,
  after_char, breaks_word, looks_like_continuation, dehyphenate_from, dehyphenate,
}

-- No character of the text is of the class.
abbrev pub Free : (ℕ → Bool) → Text → Type 0
Free q = All (λ c. q c ≡ false)

module _ (q : ℕ → Bool) where
  pub select-Free_kept : (k : ℕ → Bool) (s : Text) → Free q s → Free q (select k s)
  select-Free_kept k [] h = tt
  select-Free_kept k (c ∷ s) (f, h) = elim (Bool-cases (k c)) [
    | inl e ↦ rw e (f, select-Free_kept k s h)
    | inr e ↦ rw e (select-Free_kept k s h)
  ]

  pub select-Free : (s : Text) → Free q (select (λ c. not (q c)) s)
  select-Free [] = tt
  select-Free (c ∷ s) = elim (Bool-cases (q c)) [
    | inl e ↦ rw e (select-Free s)
    | inr e ↦ rw e (e, select-Free s)
  ]

  pub join_crlf-Free : (s : Text) → Free q s → Free q (join_crlf s)
  unfolding join_crlf
  join_crlf-Free [] h = tt
  join_crlf-Free (c ∷ s) (f, h) = elim (Bool-cases (c == 13 && begins is_newline s)) [
    | inl e ↦ rw e (join_crlf-Free s h)
    | inr e ↦ rw e (f, join_crlf-Free s h)
  ]

  pub collapse_from-Free_kept :
      (p : ℕ → Bool) (r : ℕ) (in_run : Bool) (s : Text)
      → q r ≡ false
      → Free q s
      → Free q (collapse_from p r in_run s)
  unfolding collapse_from
  collapse_from-Free_kept p r in_run [] e h = tt
  collapse_from-Free_kept p r in_run (c ∷ s) e (f, h) = elim (Bool-cases (p c)) [
    | inr i ↦ rw i (f, collapse_from-Free_kept p r false s e h)
    | inl i ↦ elim (Bool-cases in_run) [
      | inl j ↦ rw (i, j) (collapse_from-Free_kept p r true s e h)
      | inr j ↦ rw (i, j) (e, collapse_from-Free_kept p r true s e h)
    ]
  ]

  -- A run of the class is replaced by a character that is not of it.
  pub collapse_from-Free :
      (p : ℕ → Bool) (r : ℕ) (in_run : Bool) (s : Text)
      → q r ≡ false
      → ((c : ℕ) → p c ≡ false → q c ≡ false)
      → Free q (collapse_from p r in_run s)
  unfolding collapse_from
  collapse_from-Free p r in_run [] e k = tt
  collapse_from-Free p r in_run (c ∷ s) e k = elim (Bool-cases (p c)) [
    | inr i ↦ rw i (k c i, collapse_from-Free p r false s e k)
    | inl i ↦ elim (Bool-cases in_run) [
      | inl j ↦ rw (i, j) (collapse_from-Free p r true s e k)
      | inr j ↦ rw (i, j) (e, collapse_from-Free p r true s e k)
    ]
  ]

  pub newline_to_space-Free : (s : Text) → q 32 ≡ false → Free q s → Free q (map newline_to_space s)
  newline_to_space-Free [] e h = tt
  newline_to_space-Free (c ∷ s) e (f, h) = elim (Bool-cases (is_newline c)) [
    | inl i ↦ rw i (e, newline_to_space-Free s e h)
    | inr i ↦ rw i (f, newline_to_space-Free s e h)
  ]

  dehyphenate_from-Free :
      (u : Unicode) (at : Search) (s : Text) → Free q s → Free q (dehyphenate_from u at s)
  unfolding dehyphenate_from
  dehyphenate_from-Free u at [] h = tt
  dehyphenate_from-Free u at_newline (c ∷ s) (f, h) = dehyphenate_from-Free u taken s h
  dehyphenate_from-Free u outside (c ∷ s) (f, h) =
      (f, dehyphenate_from-Free u (after_char u outside c) s h)
  dehyphenate_from-Free u taken (c ∷ s) (f, h) =
      (f, dehyphenate_from-Free u (after_char u taken c) s h)
  dehyphenate_from-Free u (after_letter b) (c ∷ s) (f, h) =
      let broken = c == 45 && breaks_word u s in
      let rest =
        dehyphenate_from-Free u (if broken then at_newline else after_char u (after_letter b) c) s
          h in
      elim (Bool-cases (broken && looks_like_continuation b s)) [
        | inl e ↦ rw e rest
        | inr e ↦ rw e (f, rest)
      ]

  pub dehyphenate-Free : (u : Unicode) (s : Text) → Free q s → Free q (dehyphenate u s)
  unfolding dehyphenate
  dehyphenate-Free u s h = dehyphenate_from-Free u outside s h

  trim_start-Free : (s : Text) → Free q s → Free q (trim_start s)
  unfolding trim_start
  trim_start-Free [] h = tt
  trim_start-Free (c ∷ s) (f, h) = elim (Bool-cases (is_space c)) [
    | inl e ↦ rw e (trim_start-Free s h)
    | inr e ↦ rw e (f, h)
  ]

  trim_end-Free : (s : Text) → Free q s → Free q (trim_end s)
  unfolding trim_end
  trim_end-Free [] h = tt
  trim_end-Free (c ∷ s) (f, h) = elim (Bool-cases (is_space c && same_text (trim_end s) [])) [
    | inl e ↦ rw e tt
    | inr e ↦ rw e (f, trim_end-Free s h)
  ]

  pub trim-Free : (s : Text) → Free q s → Free q (trim s)
  unfolding trim
  trim-Free s h = trim_end-Free (trim_start s) (trim_start-Free s h)

-- A text that is free of what a pass replaces is left alone.
pub select_unchanged : (q : ℕ → Bool) (s : Text) → Free q s → select (λ c. not (q c)) s ≡ s
select_unchanged q [] h = refl
select_unchanged q (c ∷ s) (f, h) = rw f (ap (◌∷◌ c) (select_unchanged q s h))

and_false : (b : Bool) → (b && false) ≡ false
and_false true = refl
and_false false = refl

begins_none : (s : Text) → Free is_newline s → begins is_newline s ≡ false
begins_none [] h = refl
begins_none (c ∷ s) (f, h) = f

pub join_crlf_unchanged : (s : Text) → Free is_newline s → join_crlf s ≡ s
unfolding join_crlf
join_crlf_unchanged [] h = refl
join_crlf_unchanged (c ∷ s) (f, h) =
    rw (begins_none s h, and_false (c == 13)) (ap (◌∷◌ c) (join_crlf_unchanged s h))

pub collapse_unchanged :
    (p : ℕ → Bool) (r : ℕ) (s : Text) → Free p s → collapse_from p r false s ≡ s
unfolding collapse_from
collapse_unchanged p r [] h = refl
collapse_unchanged p r (c ∷ s) (f, h) = rw f (ap (◌∷◌ c) (collapse_unchanged p r s h))

pub newline_to_space_unchanged : (s : Text) → Free is_newline s → map newline_to_space s ≡ s
newline_to_space_unchanged [] h = refl
newline_to_space_unchanged (c ∷ s) (f, h) = rw f (ap (◌∷◌ c) (newline_to_space_unchanged s h))

breaks_word_unchanged : (u : Unicode) (s : Text) → Free is_newline s → breaks_word u s ≡ false
unfolding breaks_word
breaks_word_unchanged u [] h = refl
breaks_word_unchanged u (c ∷ s) (f, h) = rw f refl

-- Anywhere but at the line end of a match.
abbrev steady : Search → Bool
steady at_newline = false
steady _ = true

after_char-steady : (u : Unicode) (at : Search) (c : ℕ) → steady (after_char u at c) ≡ true
unfolding after_char
after_char-steady u at c = ground arith

dehyphenate_from_unchanged :
    (u : Unicode) (at : Search) (s : Text)
    → steady at ≡ true
    → Free is_newline s
    → dehyphenate_from u at s ≡ s
unfolding dehyphenate_from
dehyphenate_from_unchanged u at [] e h = refl
dehyphenate_from_unchanged u at_newline (c ∷ s) e h = cc
dehyphenate_from_unchanged u outside (c ∷ s) e (f, h) =
    ap (◌∷◌ c)
      (dehyphenate_from_unchanged u (after_char u outside c) s (after_char-steady u outside c) h)
dehyphenate_from_unchanged u taken (c ∷ s) e (f, h) =
    ap (◌∷◌ c)
      (dehyphenate_from_unchanged u (after_char u taken c) s (after_char-steady u taken c) h)
dehyphenate_from_unchanged u (after_letter b) (c ∷ s) e (f, h) =
    rw (breaks_word_unchanged u s h, and_false (c == 45))
      (ap (◌∷◌ c) (
        dehyphenate_from_unchanged u (after_char u (after_letter b) c) s
          (after_char-steady u (after_letter b) c) h))

pub dehyphenate_unchanged : (u : Unicode) (s : Text) → Free is_newline s → dehyphenate u s ≡ s
unfolding dehyphenate
dehyphenate_unchanged u s h = dehyphenate_from_unchanged u outside s refl h
