-- ===== src/TreePath/Delegation.antt =====
-- What the listener of a delegated zone selects, as `TreePath::delegate` of src/path.rs makes it.
use qumulus.Base.{
  Bool, true, false, ◌||◌, ◌≡◌, refl, ap, Option, none, some, [], ◌∷◌, ◌++◌, if◌then◌else◌,
  is_empty, arith,
}
use qumulus.Text.{Text, text_eq}
use qumulus.Text.Order.{eq_of_text_eq}
use qumulus.TreePath.{TreePath, star, star_star, star_hash, delegate_from, delegate}

-- Which paths a match specification selects, as a read walks it: `**` is everything below, `*#`
-- that and the node itself, and either ends the specification.
unfoldable pub matches : TreePath → TreePath → Bool
matches [] q = is_empty q
matches (p ∷ spec) [] = text_eq p star_hash
matches (p ∷ spec) (k ∷ q) =
    let next = matches spec q in
    if text_eq p star_star || text_eq p star_hash
    then true
    else if text_eq p star || text_eq p k
    then next
    else false

abbrev pub option_matches : Option TreePath → TreePath → Bool
option_matches none q = false
option_matches (some spec) q = matches spec q

-- No component of a path of data is a wildcard.
abbrev pub IsPlain : TreePath → Type 0
IsPlain [] = Unit
IsPlain (k ∷ q) =
    (text_eq k star ≡ false)
    × (text_eq k star_star ≡ false)
    × (text_eq k star_hash ≡ false)
    × IsPlain q

-- A text that equals one of two different texts does not equal the other.
text_eq_other : (p k c : Text) → text_eq p k ≡ true → text_eq k c ≡ false → text_eq p c ≡ false
text_eq_other p k c h e = rw (eq_of_text_eq p k h) e

star_others : (text_eq star star_star ≡ false) × (text_eq star star_hash ≡ false)
unfolding text_eq
star_others = (refl, refl)

pub matches-star_hash : (q : TreePath) → matches (star_hash ∷ []) q ≡ true
unfolding matches text_eq
matches-star_hash [] = refl
matches-star_hash (k ∷ q) = refl

delegate_from-matches :
    (retain : Bool) (spec d q : TreePath)
    → IsPlain d
    → option_matches (delegate_from retain spec d).1 q ≡ matches spec (d ++ q)
unfolding delegate_from matches
delegate_from-matches retain spec [] q w = refl
delegate_from-matches retain [] (k ∷ d) q w = refl
delegate_from-matches retain (p ∷ spec) (k ∷ d) q w = ground (
  arith,
  text_eq_other p k star,
  text_eq_other p k star_star,
  text_eq_other p k star_hash,
  text_eq_other p star star_star,
  text_eq_other p star star_hash,
  star_others,
  matches-star_hash q,
  delegate_from-matches retain spec d q w.3,
  delegate_from-matches true spec d q w.3,
)

-- Where no component of `d` is a wildcard, the specification of the listener that the delegated
-- zone at `d` gets selects there, as a read by it would, exactly what `spec` selects below `d`, as a
-- read by it would. Where the zone gets no listener, `spec` selects nothing below `d`.
pub delegate-matches :
    (spec d q : TreePath) → IsPlain d → option_matches (delegate spec d).1 q ≡ matches spec (d ++ q)
unfolding delegate
delegate-matches spec d q w = delegate_from-matches false spec d q w

-- `d` is a prefix of the path.
unfoldable pub is_below : TreePath → TreePath → Bool
is_below [] q = true
is_below (k ∷ d) [] = false
is_below (k ∷ d) (j ∷ q) = if text_eq k j then is_below d q else false

delegate_from-retain : (spec d : TreePath) → (delegate_from true spec d).0 ≡ true
unfolding delegate_from
delegate_from-retain spec [] = refl
delegate_from-retain [] (k ∷ d) = refl
delegate_from-retain (p ∷ spec) (k ∷ d) = ground (arith, delegate_from-retain spec d)

not_retained_head :
    (p : Text) (spec : TreePath) (k : Text) (d : TreePath)
    → (delegate_from false (p ∷ spec) (k ∷ d)).0 ≡ false
    → (text_eq p k ≡ true) × ((delegate_from false spec d).0 ≡ false)
unfolding delegate_from
not_retained_head p spec k d h =
    (ground (arith, delegate_from-retain spec d), ground (arith, delegate_from-retain spec d))

text_eq_swap : (p k j : Text) → text_eq p k ≡ true → text_eq p j ≡ text_eq k j
text_eq_swap p k j h = ap (λ x. text_eq x j) (eq_of_text_eq p k h)

-- A listener that is not retained selects nothing outside the delegated data.
pub delegate-not_retained :
    (spec d q : TreePath)
    → IsPlain d
    → (delegate spec d).0 ≡ false
    → matches spec q ≡ true
    → is_below d q ≡ true
unfolding delegate delegate_from matches is_below
delegate-not_retained spec [] q w h m = refl
delegate-not_retained [] (k ∷ d) q w h m = cc
delegate-not_retained (p ∷ spec) (k ∷ d) [] w h m =
    let e = (not_retained_head p spec k d h).0 in ground (arith, text_eq_other p k star_hash e w.2)
delegate-not_retained (p ∷ spec) (k ∷ d) (j ∷ q) w h m =
    let e = not_retained_head p spec k d h in
    ground (
      arith,
      e,
      text_eq_other p k star e.0 w.0,
      text_eq_other p k star_star e.0 w.1,
      text_eq_other p k star_hash e.0 w.2,
      text_eq_swap p k j e.0,
      delegate-not_retained spec d q w.3 e.1,
    )
