-- ===== src/Studio/Redirect.antt =====
-- Where the studio goes after a sign-in: apps/web/src/lib/safe-redirect.ts. How a browser reads a
-- reference is no part of the repository, so it is a parameter.
use Prim.Native.Char.{code}
use audio_book.Base.{
  Bool, true, false, ◌&&◌, ◌||◌, not, Option, none, some, String, ◌≡◌, refl, ap, ◌∙◌, ◌==◌,
  if◌then◌else◌, arith, Bool-cases, inl, inr,
}

-- `s.startsWith(prefix)`
unfoldable pub starts_with : (prefix s : String) → Bool
starts_with String.[] s = true
starts_with (String.◌∷◌ p prefix) String.[] = false
starts_with (String.◌∷◌ p prefix) (String.◌∷◌ c s) = code p == code c && starts_with prefix s

-- `safeReturnPath`
unfoldable pub safe_return_path : Option String → String
safe_return_path none = "/"
safe_return_path (some String.[]) = "/"
safe_return_path (some (String.◌∷◌ c s)) =
    let candidate = String.◌∷◌ c s in
    if not (starts_with "/" candidate)
    then "/"
    else if starts_with "//" candidate || starts_with "/\\" candidate
    then "/"
    else candidate

-- The reference without its tabs and line ends, which a browser drops before it reads it.
unfoldable pub without_breaks : String → String
without_breaks String.[] = String.[]
without_breaks (String.◌∷◌ c s) =
    let rest = without_breaks s in
    if code c == 9 || code c == 10 || code c == 13 then rest else String.◌∷◌ c rest

-- One slash, and neither a slash nor a backslash after it.
abbrev pub IsLocal : String → Type 0
IsLocal path =
    (starts_with "/" path ≡ true)
    × ((starts_with "//" path ≡ false) × (starts_with "/\\" path ≡ false))

slash-IsLocal : IsLocal "/"
unfolding starts_with
slash-IsLocal = (refl, (refl, refl))

-- The path returned begins with one slash, and neither a slash nor a backslash follows it.
pub safe_return_path-IsLocal : (candidate : Option String) → IsLocal (safe_return_path candidate)
unfolding safe_return_path
safe_return_path-IsLocal none = slash-IsLocal
safe_return_path-IsLocal (some String.[]) = slash-IsLocal
safe_return_path-IsLocal (some (String.◌∷◌ c s)) = ground (arith, slash-IsLocal)

pub without_breaks-without_breaks :
    (s : String) → without_breaks s ≡ without_breaks (without_breaks s)
unfolding without_breaks
without_breaks-without_breaks String.[] = refl
without_breaks-without_breaks (String.◌∷◌ c s) =
    let b = code c == 9 || code c == 10 || code c == 13 in
    elim (Bool-cases b) [
      | inl e ↦ rw e (without_breaks-without_breaks s)
      | inr e ↦ rw e (rw e (ap (String.◌∷◌ c) (without_breaks-without_breaks s)))
    ]

-- The guard lets a host of another site through: a browser drops a tab, so it reads a slash, a tab, a
-- slash and a host as two slashes and the host. The browser takes two slashes and this host to be
-- the host, and the host has no tab or line end.
pub safe_return_path_remote :
    (host_of : String → Option String) (host : String)
    → ((s : String) → host_of s ≡ host_of (without_breaks s))
    → host_of (String.◌∷◌ "/" (String.◌∷◌ "/" host)) ≡ some host
    → without_breaks host ≡ host
    → host_of (safe_return_path (some (String.◌∷◌ "/" (String.◌∷◌ "\t" (String.◌∷◌ "/" host)))))
      ≡ some host
unfolding safe_return_path starts_with without_breaks
safe_return_path_remote host_of host drops remote clean =
    drops (String.◌∷◌ "/" (String.◌∷◌ "\t" (String.◌∷◌ "/" host)))
    ∙ (ap (λ s. host_of (String.◌∷◌ "/" (String.◌∷◌ "/" s))) clean ∙ remote)
