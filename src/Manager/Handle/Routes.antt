-- ===== src/Manager/Handle/Routes.antt =====
-- The routing loop of src/manager.rs, which reuses one path for all externals.
use qumulus.Base.{true, ◌≡◌, refl, ap, List, [], ◌∷◌, ◌++◌, length, take}
use qumulus.Manager.Handle.{Routed, send_external, send_from, send_externals}
use qumulus.Manager.Registry
use qumulus.Manager.Registry.{Manager}
use qumulus.Node.Steps.{External}
use qumulus.TreePath.{TreePath}

take-append : (p q : TreePath) → take (length p) (p ++ q) ≡ p
take-append [] [] = refl
take-append [] (k ∷ q) = refl
take-append (k ∷ p) q = ap (λ x. k ∷ x) (take-append p q)

-- Sends the externals one by one, each with a path of its own.
abbrev pub send_each : TreePath → List External → Manager → Routed
send_each prefix [] m = (m, [], [])
send_each prefix (external ∷ externals) m =
    let (m', sent, messages) = send_external prefix external true m in
    let (m'', more, rest) = send_each prefix externals m' in (m'', sent ++ more, messages ++ rest)

send_from-each :
    (prefix : TreePath) (externals : List External) (m : Manager)
    → send_from prefix (length prefix) externals m ≡ send_each prefix externals m
unfolding send_from send_external
send_from-each prefix [] m = refl
send_from-each prefix (e ∷ es) m =
    rw (take-append prefix e.path, send_from-each prefix es (Registry.load m (prefix ++ e.path)).1)
      refl

-- The loop that appends to one path and truncates it sends what separate calls send: each
-- external goes to the zone at the prefix and its own path, in order, and is to be replicated.
pub send_externals_each :
    (prefix : TreePath) (externals : List External) (m : Manager)
    → send_externals prefix externals m ≡ send_each prefix externals m
unfolding send_externals
send_externals_each prefix externals m = send_from-each prefix externals m
