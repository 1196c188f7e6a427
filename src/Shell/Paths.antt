-- ===== src/Shell/Paths.antt =====
-- The paths that src/shell.rs prints, `join(".")`, are the paths that it reads.
use qumulus.Base.{false, ◌≡◌, [], ◌∷◌, ◌==◌}
use qumulus.Text.{Text}
use qumulus.TreePath.{TreePath}

-- No component has a dot.
abbrev pub IsDotless : Text → Type 0
IsDotless [] = Unit
IsDotless (c ∷ s) = ((c == b'.') ≡ false) × IsDotless s

abbrev pub AllDotless : TreePath → Type 0
AllDotless [] = Unit
AllDotless (p ∷ path) = IsDotless p × AllDotless path
