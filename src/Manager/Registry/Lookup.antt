-- ===== src/Manager/Registry/Lookup.antt =====
-- The registry as a map from paths to zones.
use Prim.Native.Nat.Ordering.{lt, eq}
use qumulus.Base.{◌≡◌, ◌≢◌, refl, some, [], ◌∷◌, arith}
use qumulus.Manager.Registry.{Manager, ZoneHandle, Active, path_cmp, get, insert, load, find}
use qumulus.Text.Order
use qumulus.TreePath.{TreePath}

path_cmp_refl : (p : TreePath) → path_cmp p p ≡ eq
unfolding path_cmp
path_cmp_refl [] = refl
path_cmp_refl (a ∷ p) = ground (arith, Order.text_cmp_refl a, path_cmp_refl p)

pub eq_of_path_cmp : (p q : TreePath) → path_cmp p q ≡ eq → p ≡ q
unfolding path_cmp
eq_of_path_cmp [] [] h = refl
eq_of_path_cmp [] (b ∷ q) h = cc
eq_of_path_cmp (a ∷ p) [] h = cc
eq_of_path_cmp (a ∷ p) (b ∷ q) h = ground (arith, Order.eq_of_text_cmp a b, eq_of_path_cmp p q)

path_cmp_trans : (p q r : TreePath) → path_cmp p q ≡ lt → path_cmp q r ≡ lt → path_cmp p r ≡ lt
unfolding path_cmp
path_cmp_trans [] [] r h k = cc
path_cmp_trans [] (b ∷ q) [] h k = cc
path_cmp_trans [] (b ∷ q) (c ∷ r) h k = refl
path_cmp_trans (a ∷ p) [] r h k = cc
path_cmp_trans (a ∷ p) (b ∷ q) [] h k = cc
path_cmp_trans (a ∷ p) (b ∷ q) (c ∷ r) h k = ground (
  arith,
  Order.eq_of_text_cmp a b,
  Order.eq_of_text_cmp b c,
  Order.lt_trans a b c,
  Order.text_cmp_refl a,
  path_cmp_trans p q r,
)

pub get-insert_self : (p : TreePath) (z : ZoneHandle) (a : Active) → get p (insert p z a) ≡ some z
unfolding get insert
get-insert_self p z [] = ground (arith, path_cmp_refl p)
get-insert_self p z ((q, y) ∷ a) =
    ground (arith, get-insert_self p z a, path_cmp_refl p, eq_of_path_cmp p q)

pub get-insert_ne :
    (q p : TreePath) (z : ZoneHandle) (a : Active) → q ≢ p → get q (insert p z a) ≡ get q a
unfolding get insert
get-insert_ne q p z [] h = ground (arith, eq_of_path_cmp q p)
get-insert_ne q p z ((r, y) ∷ a) h =
    ground
      (arith, get-insert_ne q p z a, eq_of_path_cmp q p, eq_of_path_cmp p r, path_cmp_trans q p r)

-- Loading a path makes its zone the one that is found there, by the handle that was returned,
-- leaves every other path as it was, and done again changes and sends nothing.
pub load_registers :
    (m : Manager) (path q : TreePath)
    → q ≢ path
    → let (zone, m', sent) = load m path in
      (find m' path ≡ some zone) × (find m' q ≡ find m q) × (load m' path ≡ (zone, m', []))
unfolding load find
load_registers m path q h =
    let zone : ZoneHandle = record { path = path } in
    let self = get-insert_self path zone m.active in
    (
      ground (arith, self),
      ground (arith, get-insert_ne q path zone m.active h),
      ground (arith, self),
    )
