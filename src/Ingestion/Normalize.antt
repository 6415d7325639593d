-- ===== src/Ingestion/Normalize.antt =====
-- packages/ingestion/src/normalize/normalize.ts: `normalizeText` and `dehyphenate`.
use audio_book.Base.{
  ℕ, Bool, true, false, ◌&&◌, ◌||◌, not, List, [], ◌∷◌, ◌==◌, leb, map, select, if◌then◌else◌,
}
use audio_book.Ingestion.Model.{Text, Unicode}
use audio_book.Ingestion.Text.{trim, collapse}
pub mod Passes
pub mod Spaces
pub mod Fixed

abbrev pub is_soft_hyphen : ℕ → Bool
is_soft_hyphen c = c == 173

abbrev pub is_newline : ℕ → Bool
is_newline c = c == 10

abbrev pub is_plain_space : ℕ → Bool
is_plain_space c = c == 32

-- `[ \t]`
abbrev pub is_blank : ℕ → Bool
is_blank c = c == 32 || c == 9

abbrev pub begins : (ℕ → Bool) → Text → Bool
begins p [] = false
begins p (c ∷ s) = p c

-- `replace(/\r\n/g, '\n')`
unfoldable pub join_crlf : Text → Text
join_crlf [] = []
join_crlf (c ∷ s) =
    let rest = join_crlf s in if c == 13 && begins is_newline s then rest else c ∷ rest

-- Where the search of `(\p{L}+)-\n(\p{L}+)` stands: outside of letters, after a letter that a match
-- may begin with, at the line end of a match, or among the letters that a match has taken.
pub data Search : Type 0 where
  outside at_newline taken : Search
  after_letter : ℕ → Search

-- The hyphen after this character is followed by a line end and a letter.
unfoldable pub breaks_word : Unicode → Text → Bool
breaks_word u [] = false
breaks_word u (c ∷ s) = is_newline c && begins u.is_letter s

unfoldable pub is_ascii_lower : ℕ → Bool
is_ascii_lower c = leb 97 c && leb c 122

-- `looksLikeContinuation`, from the letter before the hyphen and what follows it.
unfoldable pub looks_like_continuation : ℕ → Text → Bool
looks_like_continuation before [] = false
looks_like_continuation before (c ∷ s) = is_ascii_lower before && begins is_ascii_lower s

unfoldable pub after_char : Unicode → Search → ℕ → Search
after_char u taken c = if u.is_letter c then taken else outside
after_char u at_newline c = taken
after_char u (after_letter b) c = if u.is_letter c then after_letter c else outside
after_char u outside c = if u.is_letter c then after_letter c else outside

unfoldable pub dehyphenate_from : Unicode → Search → Text → Text
dehyphenate_from u at [] = []
dehyphenate_from u at_newline (c ∷ s) = dehyphenate_from u taken s
dehyphenate_from u (after_letter b) (c ∷ s) =
    let broken = c == 45 && breaks_word u s in
    let rest =
      dehyphenate_from u (if broken then at_newline else after_char u (after_letter b) c) s in
    if broken && looks_like_continuation b s then rest else c ∷ rest
dehyphenate_from u outside (c ∷ s) = c ∷ dehyphenate_from u (after_char u outside c) s
dehyphenate_from u taken (c ∷ s) = c ∷ dehyphenate_from u (after_char u taken c) s

unfoldable pub dehyphenate : Unicode → Text → Text
dehyphenate u s = dehyphenate_from u outside s

abbrev pub newline_to_space : ℕ → ℕ
newline_to_space c = if is_newline c then 32 else c

-- The steps of `normalizeText` up to the last one, on the composed text.
unfoldable pub unbroken : Unicode → Bool → Text → Text
unbroken u dehyphenates s =
    let bare = select (λ c. not (is_soft_hyphen c)) s in
    let spaced = collapse is_blank 32 (join_crlf bare) in
    let lines = collapse is_newline (if dehyphenates then 10 else 32) spaced in
    if dehyphenates then map newline_to_space (dehyphenate u lines) else lines

unfoldable pub normalize_text : Unicode → Bool → Text → Text
normalize_text u dehyphenates s =
    trim (collapse is_plain_space 32 (unbroken u dehyphenates (u.nfc s)))
