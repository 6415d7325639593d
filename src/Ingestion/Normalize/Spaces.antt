-- ===== src/Ingestion/Normalize/Spaces.antt =====
-- Runs of spaces and the ends of a text in packages/ingestion/src/normalize/normalize.ts.
use audio_book.Base.{
  ℕ, Bool, true, false, ◌&&◌, [], ◌∷◌, ◌==◌, All, All-weaken, All-intro, arith, ◌≡◌, refl, ap, ap₂,
  sym, ◌∙◌, inl, inr, Bool-cases,
}
use audio_book.Base.Text.{is_space}
use audio_book.Ingestion.Model.{Text}
use audio_book.Ingestion.Text.{trim, trim_start, trim_end, collapse_from, same_text}
use audio_book.Ingestion.Normalize.{begins, is_blank, is_plain_space}
use audio_book.Ingestion.Normalize.Passes.{Free}

abbrev pub is_tab : ℕ → Bool
is_tab c = c == 9

-- No space is followed by a space.
abbrev pub Spaced : Text → Type 0
Spaced [] = Unit
Spaced (c ∷ s) = ((is_plain_space c && begins is_plain_space s) ≡ false) × Spaced s

collapse_from-begins :
    (s : Text) → begins is_plain_space (collapse_from is_plain_space 32 true s) ≡ false
unfolding collapse_from
collapse_from-begins [] = refl
collapse_from-begins (c ∷ s) = elim (Bool-cases (is_plain_space c)) [
  | inl e ↦ rw e (collapse_from-begins s)
  | inr e ↦ rw e e
]

pub collapse_from-Spaced :
    (in_run : Bool) (s : Text) → Spaced (collapse_from is_plain_space 32 in_run s)
unfolding collapse_from
collapse_from-Spaced in_run [] = tt
collapse_from-Spaced in_run (c ∷ s) = elim (Bool-cases (is_plain_space c)) [
  | inr e ↦ rw e (rw e refl, collapse_from-Spaced false s)
  | inl e ↦ elim (Bool-cases in_run) [
    | inl j ↦ rw (e, j) (collapse_from-Spaced true s)
    | inr j ↦ rw (e, j) (collapse_from-begins s, collapse_from-Spaced true s)
  ]
]

pub trim_start-Spaced : (s : Text) → Spaced s → Spaced (trim_start s)
unfolding trim_start
trim_start-Spaced [] h = tt
trim_start-Spaced (c ∷ s) (f, h) = elim (Bool-cases (is_space c)) [
  | inl e ↦ rw e (trim_start-Spaced s h)
  | inr e ↦ rw e (f, h)
]

trim_end-begins :
    (s : Text) → begins is_plain_space s ≡ false → begins is_plain_space (trim_end s) ≡ false
unfolding trim_end
trim_end-begins [] h = refl
trim_end-begins (c ∷ s) h = elim (Bool-cases (is_space c && same_text (trim_end s) [])) [
  | inl e ↦ rw e refl
  | inr e ↦ rw e h
]

and_false_mono : (a b c : Bool) → (b ≡ false → c ≡ false) → (a && b) ≡ false → (a && c) ≡ false
and_false_mono true b c k f = k f
and_false_mono false b c k f = refl

pub trim_end-Spaced : (s : Text) → Spaced s → Spaced (trim_end s)
unfolding trim_end
trim_end-Spaced [] h = tt
trim_end-Spaced (c ∷ s) (f, h) = elim (Bool-cases (is_space c && same_text (trim_end s) [])) [
  | inl e ↦ rw e tt
  | inr e ↦ rw e (
    and_false_mono (is_plain_space c) (begins is_plain_space s) (begins is_plain_space (trim_end s))
        (trim_end-begins s) f,
    trim_end-Spaced s h,
  )
]

-- A class whose only character in the text is the space: its runs are single spaces already.
abbrev pub SpaceOnly : (ℕ → Bool) → Text → Type 0
SpaceOnly p = All (λ c. p c ≡ is_plain_space c)

pub collapse_of_single :
    (p : ℕ → Bool) (s : Text)
    → SpaceOnly p s
    → Spaced s
    → (collapse_from p 32 false s ≡ s)
      × (begins is_plain_space s ≡ false → collapse_from p 32 true s ≡ s)
unfolding collapse_from
collapse_of_single p [] t h = (refl, λ _. refl)
collapse_of_single p (c ∷ s) (t, ts) (f, h) =
    let (outside_run, in_run) = collapse_of_single p s ts h in
    elim (Bool-cases (is_plain_space c)) [
      | inl e ↦
          let same : 32 ≡ c = ground arith in
          let alone : begins is_plain_space s ≡ false = sym (rw e refl) ∙ f in
          (rw (t, e) (ap₂ (λ a l. a ∷ l) same (in_run alone)), λ no. absurd (ground arith))
      | inr e ↦ (rw (t, e) (ap (◌∷◌ c) outside_run), λ no. rw (t, e) (ap (◌∷◌ c) outside_run))
    ]

pub is_blank-SpaceOnly : (s : Text) → Free is_tab s → SpaceOnly is_blank s
is_blank-SpaceOnly s h = All-weaken s (λ c e. ground arith) h

pub is_plain_space-SpaceOnly : (s : Text) → SpaceOnly is_plain_space s
is_plain_space-SpaceOnly s = All-intro (λ c. is_plain_space c ≡ is_plain_space c) s (λ c m. refl)

trim_end-trim_end : (s : Text) → trim_end (trim_end s) ≡ trim_end s
unfolding trim_end
trim_end-trim_end [] = refl
trim_end-trim_end (c ∷ s) = elim (Bool-cases (is_space c && same_text (trim_end s) [])) [
  | inl e ↦ rw e refl
  | inr e ↦ rw (e, trim_end-trim_end s, e) refl
]

-- The text does not begin with white space.
abbrev Bare : Text → Type 0
Bare s = begins is_space s ≡ false

trim_start-Bare : (s : Text) → Bare (trim_start s)
unfolding trim_start
trim_start-Bare [] = refl
trim_start-Bare (c ∷ s) = elim (Bool-cases (is_space c)) [
  | inl e ↦ rw e (trim_start-Bare s)
  | inr e ↦ rw e e
]

trim_start-trim_end : (s : Text) → Bare s → trim_start (trim_end s) ≡ trim_end s
unfolding trim_start trim_end
trim_start-trim_end [] b = refl
trim_start-trim_end (c ∷ s) b = rw (b, b) refl

pub trim-trim : (s : Text) → trim (trim s) ≡ trim s
unfolding trim
trim-trim s =
    ap trim_end (trim_start-trim_end (trim_start s) (trim_start-Bare s))
    ∙ trim_end-trim_end (trim_start s)
