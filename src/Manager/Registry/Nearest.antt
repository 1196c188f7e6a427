-- ===== src/Manager/Registry/Nearest.antt =====
-- `find_nearest` finds the longest active prefix, if the root zone is active.
use qumulus.Base.{
  ℕ, zero, suc, ◌≤◌, ◌<◌, ◌≡◌, refl, sym, ◌∙◌, ap, none, some, [], ◌∷◌, length, take, inl, inr,
  Option-cases, arith,
}
use native.Mathlib.Decide.{ℕ_discrete}
use qumulus.Manager.Registry.{Active, ZoneHandle, get, find_nearest}
use qumulus.TreePath
use qumulus.TreePath.{TreePath}

pop-take :
    (n : ℕ) (path : TreePath)
    → suc n ≤ length path
    → (TreePath.pop (take (suc n) path)).0 ≡ take n path
unfolding TreePath.pop
pop-take n [] h = absurd (omega arith)
pop-take zero (p ∷ path) h = refl
pop-take (suc n) (p ∷ []) h = absurd (omega arith)
pop-take (suc n) (p ∷ q ∷ path) h = ap (λ x. p ∷ x) (pop-take n (q ∷ path) (omega arith))

take-length : (path : TreePath) → take (length path) path ≡ path
take-length [] = refl
take-length (p ∷ path) = ap (λ x. p ∷ x) (take-length path)

-- `k` components of the path are the longest active prefix of the first `n`.
pub record Nearest (active : Active) (path : TreePath) (n : ℕ) : Type 0 where
  pub k : ℕ
  pub zone : ZoneHandle
  pub within : k ≤ n
  pub returned : find_nearest (suc n) active (take n path) ≡ some (take k path, zone)
  pub is_active : get (take k path) active ≡ some zone
  pub longest : (j : ℕ) → k < j → j ≤ n → get (take j path) active ≡ none

skip :
    (n : ℕ) (active : Active) (probe : TreePath)
    → get probe active ≡ none
    → find_nearest (suc n) active probe ≡ find_nearest n active (TreePath.pop probe).0
unfolding find_nearest
skip n active probe h = ground arith

Nearest-from :
    (active : Active) (path : TreePath) {root : ZoneHandle}
    → get [] active ≡ some root
    → (n : ℕ) → n ≤ length path
    → Nearest active path n
unfolding find_nearest
Nearest-from active path {root} h zero b = record {
  k = 0;
  zone = root;
  within = omega arith;
  returned = ground arith;
  is_active = h;
  longest = λ j p q. absurd (omega arith);
}
Nearest-from active path h (suc n) b = elim (Option-cases (get (take (suc n) path) active)) [
  | inr (zone, e) ↦ record {
    k = suc n;
    zone = zone;
    within = omega arith;
    returned = ground arith;
    is_active = e;
    longest = λ j p q. absurd (omega arith);
  }
  | inl e ↦
      let r = Nearest-from active path h n (omega arith) in
      record {
        k = r.k;
        zone = r.zone;
        within = omega (arith, r.within);
        returned =
            skip (suc n) active (take (suc n) path) e
            ∙ ap (find_nearest (suc n) active) (pop-take n path b)
            ∙ r.returned;
        is_active = r.is_active;
        longest = λ j p q. elim (ℕ_discrete j (suc n)) [
          | yes s ↦ rw s e
          | no s ↦ r.longest j p (omega arith)
        ];
      }
]

-- With the root zone active, `find_nearest` returns after at most one step for each component and
-- one more, with the longest prefix of the path that has an active zone, and that zone.
pub find_nearest_longest :
    (active : Active) (path : TreePath) {root : ZoneHandle}
    → get [] active ≡ some root
    → (k : ℕ) × (zone : ZoneHandle) × (find_nearest (suc (length path)) active path
        ≡ some (take k path, zone))
      × (get (take k path) active ≡ some zone)
      × ((j : ℕ) → k < j → j ≤ length path → get (take j path) active ≡ none)
find_nearest_longest active path h =
    let r = Nearest-from active path h (length path) (omega arith) in
    (
      r.k,
      r.zone,
      ap (find_nearest (suc (length path)) active) (sym (take-length path)) ∙ r.returned,
      r.is_active,
      r.longest,
    )

diverges_from :
    (active : Active) (path : TreePath)
    → ((j : ℕ) → j ≤ length path → get (take j path) active ≡ none)
    → (n j : ℕ) → j ≤ length path
    → find_nearest n active (take j path) ≡ none
unfolding find_nearest TreePath.pop
diverges_from active path h zero j b = refl
diverges_from active path h (suc n) zero b =
    skip n active [] (h 0 b) ∙ diverges_from active path h n 0 b
diverges_from active path h (suc n) (suc j) b =
    skip n active (take (suc j) path) (h (suc j) b)
    ∙ ap (find_nearest n active) (pop-take j path b)
    ∙ diverges_from active path h n j (omega arith)

-- Where neither the root nor any other prefix of the path is active, no number of steps is
-- enough: the loop does not end.
pub find_nearest-diverges :
    (active : Active) (path : TreePath)
    → ((j : ℕ) → j ≤ length path → get (take j path) active ≡ none)
    → (n : ℕ) → find_nearest n active path ≡ none
find_nearest-diverges active path h n =
    ap (find_nearest n active) (sym (take-length path))
    ∙ diverges_from active path h n (length path) (omega arith)
