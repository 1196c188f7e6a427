-- ===== src/Store/Filename.antt =====
-- src/store/fs.rs, `zonefilename`: the name of the file of a zone.
pub mod Safety
use qumulus.Base.{
  ℕ, Bool, true, false, not, ◌&&◌, ◌||◌, Option, none, some, List, [], ◌∷◌, ◌++◌, ltb, leb, ◌==◌,
  if◌then◌else◌, length, take, drop, is_empty,
}
use qumulus.Text.{Text, text}
use qumulus.TreePath.{TreePath}

abbrev between : ℕ → ℕ → ℕ → Bool
between lo hi c = leb lo c && leb c hi

-- `#`, digits and ASCII letters.
abbrev pub is_safe : ℕ → Bool
is_safe c = c == b'#' || between b'0' b'9' c || between b'A' b'Z' c || between b'a' b'z' c

-- The bytes of a character after its first.
abbrev pub is_continuation : ℕ → Bool
is_continuation c = between 128 191 c

-- `path.join(".")`.
unfoldable pub join : TreePath → Text
join [] = []
join (p ∷ []) = p
join (p ∷ q ∷ path) = p ++ b'.' ∷ join (q ∷ path)

abbrev starts_inside : Text → Bool
starts_inside [] = false
starts_inside (c ∷ s) = is_continuation c

-- `String::truncate`; `none` is the panic inside of a character.
unfoldable pub truncate : ℕ → Text → Option Text
truncate len s = if starts_inside (drop len s) then none else some (take len s)

-- Each character that is not safe becomes one `_`.
unfoldable pub sanitize : Text → Text
sanitize [] = []
sanitize (c ∷ s) =
    if is_continuation c
    then sanitize s
    else if is_safe c
    then c ∷ sanitize s
    else b'_' ∷ sanitize s

abbrev pub finish : Text → Option Text → Option Text
finish hash none = none
finish hash (some s) = some (sanitize s ++ b'_' ∷ hash)

-- `hash` is what the standard hasher finishes with, in hexadecimal.
unfoldable pub zonefilename : (Text → Text) → TreePath → Option Text
unfolding join truncate sanitize
zonefilename hash path =
    let zonename = join path in
    let filename = text "r" ++ (if is_empty path then [] else zonename) in
    finish (hash zonename) (truncate 80 filename)
