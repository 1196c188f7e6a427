-- ===== src/Tests/Paths.antt =====
-- Match specifications and commands, run on the paths of a small chat.
use qumulus.Base.{◌≡◌, refl, true, false, some, [], ◌∷◌, ◌++◌}
use qumulus.Command.{err, call_named}
use qumulus.Text.{text, text_eq}
use qumulus.TreePath
use qumulus.TreePath.{TreePath, star, star_star, star_hash, delegate, resolved}
use qumulus.TreePath.Delegation.{matches, option_matches, delegate-matches}

abbrev rooms_all : TreePath
rooms_all = text "rooms" ∷ star ∷ star_hash ∷ []

abbrev room : TreePath
room = text "rooms" ∷ text "cows" ∷ []

abbrev members : TreePath
members = text "members" ∷ []

delegate_all : delegate rooms_all room ≡ (true, some (star_hash ∷ []))
unfolding delegate TreePath.delegate_from text_eq
delegate_all = refl

delegate_one :
    delegate (text "rooms" ∷ text "cows" ∷ star_star ∷ []) room ≡ (false, some (star_star ∷ []))
unfolding delegate TreePath.delegate_from text_eq
delegate_one = refl

resolved_prefix :
    resolved (text "#a" ∷ text "#b" ∷ text "c" ∷ text "#d" ∷ []) ≡ text "#a" ∷ text "#b" ∷ []
unfolding resolved
resolved_prefix = refl

delegate-matches_example :
    option_matches (delegate rooms_all room).1 members ≡ matches rooms_all (room ++ members)
unfolding text_eq
delegate-matches_example =
    delegate-matches rooms_all room members (refl, refl, refl, (refl, refl, refl, tt))

bad_call : call_named (text "drop") ≡ err (text "Bad call")
unfolding call_named text_eq
bad_call = refl
