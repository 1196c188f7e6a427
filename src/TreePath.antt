-- ===== src/TreePath.antt =====
-- src/path.rs: a path to a subtree, and the match specifications of listeners and reads.
pub mod Delegation
pub mod Resolved
use Prim.Native.Nat.{compare, Ordering}
use qumulus.Base.{
  ℕ, zero, suc, Bool, true, false, ◌||◌, Option, none, some, List, [], ◌∷◌, ◌++◌, ltb, ◌==◌,
  if◌then◌else◌, length, take, drop,
}
use qumulus.Text.{Text, text, text_eq}

-- `struct Path { path: Vec<String> }`
abbrev pub TreePath : Type 0
TreePath = List Text

-- The wildcards `*`, `**` and `*#`.
abbrev pub star : Text
star = text "*"

abbrev pub star_star : Text
star_star = text "**"

abbrev pub star_hash : Text
star_hash = text "*#"

abbrev pub empty : TreePath
empty = []

abbrev pub append : TreePath → TreePath → TreePath
append self path = self ++ path

abbrev pub len : TreePath → ℕ
len self = length self

abbrev pub push : TreePath → Text → TreePath
push self component = self ++ component ∷ []

-- The path without its last component, and that component; `none` leaves an empty path.
unfoldable pub pop : TreePath → TreePath × Option Text
pop [] = ([], none)
pop (p ∷ []) = ([], some p)
pop (p ∷ q ∷ self) = let (rest, last) = pop (q ∷ self) in (p ∷ rest, last)

abbrev pub truncate : TreePath → ℕ → TreePath
truncate self len = take len self

abbrev pub starts_with_hash : Text → Bool
starts_with_hash [] = false
starts_with_hash (c ∷ p) = c == b'#'

-- The longest prefix of components that start with `#`.
unfoldable pub resolved : TreePath → TreePath
resolved [] = []
resolved (p ∷ self) = if starts_with_hash p then p ∷ resolved self else []

-- The loop of `delegate` over the components of the delegated path; `retain` is its flag.
unfoldable pub delegate_from : Bool → TreePath → TreePath → Bool × Option TreePath
delegate_from retain iter [] = (retain, some iter)
delegate_from retain [] (d ∷ d_path) = (true, none)
delegate_from retain (p ∷ iter) (d ∷ d_path) =
    let matched = delegate_from retain iter d_path in
    let wildcard = delegate_from true iter d_path in
    if text_eq p d
    then matched
    else if text_eq p star
    then wildcard
    else if text_eq p star_star || text_eq p star_hash
    then (true, some (star_hash ∷ []))
    else (true, none)

-- Whether a listener at `self` is kept by this zone, and what it listens to in the delegated one.
unfoldable pub delegate : TreePath → TreePath → Bool × Option TreePath
unfolding delegate_from
delegate self d_path = delegate_from false self d_path

-- `self.path[n..]`; `none` is the panic past the end.
unfoldable pub slice : TreePath → ℕ → Option TreePath
slice self n = if ltb (length self) n then none else some (drop n self)

abbrev pub path_eq : TreePath → TreePath → Bool
path_eq [] [] = true
path_eq (a ∷ p) (b ∷ q) = elim (text_eq a b) [ true ↦ path_eq p q | false ↦ false ]
path_eq _ _ = false
