-- ===== src/Store/Filename/Safety.antt =====
-- Which file names src/store/fs.rs `zonefilename` makes.
use qumulus.Base.{
  ℕ, zero, suc, ◌+◌, ◌≤◌, ◌≡◌, refl, ap, Bool, true, false, ◌||◌, ◌==◌, Option, none, some, [], ◌∷◌,
  ◌++◌, length, take, length-append, arith, is_empty, if◌then◌else◌,
}
use qumulus.Store.Filename.{
  is_safe, is_continuation, join, truncate, sanitize, finish, zonefilename,
}
use qumulus.Text.{Text, text}
use qumulus.TreePath.{TreePath}

-- Safe bytes and underscores: no separator, no dot.
abbrev pub AllSafe : Text → Type 0
AllSafe [] = Unit
AllSafe (c ∷ s) = ((is_safe c || c == b'_') ≡ true) × AllSafe s

choice-AllSafe :
    (x y : Bool) (c : ℕ) (s : Text)
    → is_safe c ≡ y
    → AllSafe s
    → AllSafe (if x then s else if y then c ∷ s else b'_' ∷ s)
choice-AllSafe true y c s e h = h
choice-AllSafe false true c s e h = (rw e refl, h)
choice-AllSafe false false c s e h = (refl, h)

sanitize-AllSafe : (s : Text) → AllSafe (sanitize s)
unfolding sanitize
sanitize-AllSafe [] = tt
sanitize-AllSafe (c ∷ s) =
    choice-AllSafe (is_continuation c) (is_safe c) c (sanitize s) refl (sanitize-AllSafe s)

append-AllSafe : (s t : Text) → AllSafe s → AllSafe t → AllSafe (s ++ t)
append-AllSafe [] t h k = k
append-AllSafe (c ∷ s) t h k = (h.0, append-AllSafe s t h.1 k)

length-sanitize : (s : Text) → length (sanitize s) ≤ length s
unfolding sanitize
length-sanitize [] = omega arith
length-sanitize (c ∷ s) = ground (arith, length-sanitize s)

length-take_le : (n : ℕ) (s : Text) → length (take n s) ≤ n
length-take_le zero s = omega arith
length-take_le (suc n) [] = omega arith
length-take_le (suc n) (c ∷ s) = omega (arith, length-take_le n s)

finish-name :
    (hash : Text) (o : Option Text) {name : Text}
    → finish hash o ≡ some name
    → (s : Text) × (o ≡ some s) × (name ≡ sanitize s ++ b'_' ∷ hash)
finish-name hash none e = absurd cc
finish-name hash (some s) e = (s, refl, cc)

truncate-take : (n : ℕ) (f : Text) {s : Text} → truncate n f ≡ some s → s ≡ take n f
unfolding truncate
truncate-take n f e = ground arith

-- A name is safe and short: where the hash is spelled in safe bytes, a file name has only `#`,
-- ASCII digits and letters and underscores, so it stays in its directory, and it is at most 81
-- bytes longer than the hash.
pub zonefilename-AllSafe :
    (hash : Text → Text) (path : TreePath) {name : Text}
    → AllSafe (hash (join path))
    → zonefilename hash path ≡ some name
    → AllSafe name × (length name ≤ 81 + length (hash (join path)))
unfolding zonefilename
zonefilename-AllSafe hash path h e =
    let zonename = join path in
    let filename = text "r" ++ (if is_empty path then [] else zonename) in
    let (s, t, n) = finish-name (hash zonename) (truncate 80 filename) e in
    let whole : AllSafe (sanitize s ++ b'_' ∷ hash zonename) =
      append-AllSafe (sanitize s) (b'_' ∷ hash zonename) (sanitize-AllSafe s) (refl, h) in
    let short : length s ≤ 80 = rw (truncate-take 80 filename t) (length-take_le 80 filename) in
    (
      rw n whole,
      rw n (omega (arith, length-append (sanitize s) (b'_' ∷ hash zonename), length-sanitize s)),
    )

append-dot : (a b t : Text) → (a ++ b'.' ∷ b) ++ t ≡ a ++ b'.' ∷ (b ++ t)
append-dot [] b t = refl
append-dot (c ∷ a) b t = ap (λ x. c ∷ x) (append-dot a b t)

join-dot : (a b : Text) (path : TreePath) → join ((a ++ b'.' ∷ b) ∷ path) ≡ join (a ∷ b ∷ path)
unfolding join
join-dot a b [] = refl
join-dot a b (q ∷ path) = append-dot a b (b'.' ∷ join (q ∷ path))

-- Two zones can share one file: a component `a.b` makes the same name as the two components `a`
-- and `b`, whatever the hash is, since it is taken of the joined name.
pub zonefilename_collides :
    (hash : Text → Text) (a b : Text) (path : TreePath)
    → zonefilename hash ((a ++ b'.' ∷ b) ∷ path) ≡ zonefilename hash (a ∷ b ∷ path)
unfolding zonefilename
zonefilename_collides hash a b path = rw (join-dot a b path) refl
