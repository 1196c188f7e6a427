-- ===== src/TreePath/Resolved.antt =====
-- Which part of a path src/path.rs `resolved` returns.
use qumulus.Base.{◌≡◌, refl, true, false, [], ◌∷◌, ◌++◌, Bool-cases, inl, inr, arith}
use qumulus.TreePath.{TreePath, starts_with_hash, resolved}

abbrev pub AllMarked : TreePath → Type 0
AllMarked [] = Unit
AllMarked (k ∷ p) = (starts_with_hash k ≡ true) × AllMarked p

-- The path is empty, or its first component does not start with `#`.
abbrev pub IsUnmarked : TreePath → Type 0
IsUnmarked [] = Unit
IsUnmarked (k ∷ p) = starts_with_hash k ≡ false

-- `resolved` takes the leading components that start with `#`, all of them and no others.
pub resolved_split :
    (p : TreePath)
    → (rest : TreePath) × (resolved p ++ rest ≡ p) × AllMarked (resolved p) × IsUnmarked rest
unfolding resolved
resolved_split [] = ([], refl, tt, tt)
resolved_split (k ∷ p) = elim (Bool-cases (starts_with_hash k)) [
  | inl h ↦ let s = resolved_split p in (s.0, ground (arith, s.1), ground (arith, s.2), s.3)
  | inr h ↦ (k ∷ p, ground arith, ground arith, h)
]
