-- ===== src/Paging/Tally.antt =====
-- A codec of cursors for apps/api/src/common/pagination.ts that spells both numbers in tally marks.
use Prim.Native.Char.{code}
use audio_book.Base.{ℕ, zero, suc, Option, some, String, ◌≡◌, ◌≢◌, refl, ap, ◌==◌, if◌then◌else◌}
use audio_book.Paging.{CursorPayload, Codec}

pub tally : ℕ → ℕ → String
tally zero zero = "."
tally zero (suc n) = String.◌∷◌ "b" (tally zero n)
tally (suc m) n = String.◌∷◌ "a" (tally m n)

count_mark : ℕ → String → ℕ
count_mark mark String.[] = 0
count_mark mark (String.◌∷◌ c s) =
    let rest = count_mark mark s in if code c == mark then suc rest else rest

count_mark-a : (m n : ℕ) → count_mark b'a' (tally m n) ≡ m
unfolding count_mark tally
count_mark-a zero zero = refl
count_mark-a zero (suc n) = count_mark-a zero n
count_mark-a (suc m) n = ap suc (count_mark-a m n)

count_mark-b : (m n : ℕ) → count_mark b'b' (tally m n) ≡ n
unfolding count_mark tally
count_mark-b zero zero = refl
count_mark-b zero (suc n) = ap suc (count_mark-b zero n)
count_mark-b (suc m) n = count_mark-b m n

pub tally-ne : (m n : ℕ) → tally m n ≢ ""
unfolding tally
tally-ne zero zero e = cc
tally-ne zero (suc n) e = cc
tally-ne (suc m) n e = cc

pub read_tally : String → Option CursorPayload
unfolding count_mark
read_tally s = some (record { v = count_mark b'a' s; id = count_mark b'b' s })

pub read_tally_lem : (c : CursorPayload) → read_tally (tally c.v c.id) ≡ some c
unfolding read_tally
read_tally_lem c =
    ap (λ (p : ℕ × ℕ). some (record { v = p.0; id = p.1 }))
      (λ i. (count_mark-a c.v c.id i, count_mark-b c.v c.id i))

abbrev pub tallies : Codec
tallies = record {
  encode = λ c. tally c.v c.id;
  decode = read_tally;
  encode-ne = λ c. tally-ne c.v c.id;
  decode-encode = read_tally_lem;
}
