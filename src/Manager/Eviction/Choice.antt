-- ===== src/Manager/Eviction/Choice.antt =====
-- Which zone a pass of the eviction manager tells to hibernate.
use qumulus.Base.{
  ℕ, zero, suc, ◌+◌, ◌%◌, ◌≤◌, ◌<◌, ◌≡◌, refl, true, false, some, List, [], ◌∷◌, length, arith,
}
use qumulus.Manager.Eviction.{EvictionManager, contains, insert, remove, nth, handle_eq, evict}
use qumulus.Manager.Registry.{ZoneHandle, max_loaded_soft}
use qumulus.Text.Order.{text_eq_refl}
use qumulus.TreePath.{TreePath, path_eq}

path_eq_refl : (p : TreePath) → path_eq p p ≡ true
path_eq_refl [] = refl
path_eq_refl (a ∷ p) = ground (arith, text_eq_refl a, path_eq_refl p)

handle_eq_refl : (z : ZoneHandle) → handle_eq z z ≡ true
handle_eq_refl z = path_eq_refl z.path

contains-nth :
    (set : List ZoneHandle) (i : ℕ) {z : ZoneHandle} → nth set i ≡ some z → contains z set ≡ true
unfolding contains
contains-nth [] i h = cc
contains-nth (y ∷ set) zero {z} h = ground (arith, handle_eq_refl z)
contains-nth (y ∷ set) (suc i) h = ground (arith, contains-nth set i h)

nth_within :
    (set : List ZoneHandle) (i : ℕ) → i < length set → (z : ZoneHandle) × (nth set i ≡ some z)
nth_within [] i h = absurd (omega arith)
nth_within (y ∷ set) zero h = (y, refl)
nth_within (y ∷ set) (suc i) h = nth_within set i (omega arith)

contains-remove : (z : ZoneHandle) (set : List ZoneHandle) → contains z (remove z set) ≡ false
unfolding contains remove
contains-remove z [] = refl
contains-remove z (y ∷ set) = ground (arith, contains-remove z set)

contains-insert : (z : ZoneHandle) (set : List ZoneHandle) → contains z (insert z set) ≡ true
unfolding insert contains
contains-insert z set = ground (arith, handle_eq_refl z)

-- A pass tells a zone to hibernate only above the soft limit, and only a loaded one, which it
-- then counts as pending and no longer as loaded.
pub evict_sound :
    (random_r random_i : ℕ) (m : EvictionManager) {z : ZoneHandle}
    → (evict random_r random_i m).1 ≡ some z
    → let m' = (evict random_r random_i m).0 in
      (max_loaded_soft < length m.loaded + length m.pending)
      × (contains z m.loaded ≡ true)
      × (contains z m'.loaded ≡ false)
      × (contains z m'.pending ≡ true)
unfolding evict
evict_sound random_r random_i m {z} h =
    let i = random_i % length m.loaded in
    (
      ground arith,
      ground (arith, contains-nth m.loaded i {z = z}),
      ground (arith, contains-remove z m.loaded),
      ground (arith, contains-insert z m.pending),
    )

-- Once 99 zones more than the soft limit are loaded or pending, every pass with a loaded zone
-- tells one to hibernate, whatever random numbers it draws.
pub evict_forced :
    (random_r random_i : ℕ) (m : EvictionManager)
    → max_loaded_soft + 99 ≤ length m.loaded + length m.pending
    → 0 < length m.loaded
    → (z : ZoneHandle) × ((evict random_r random_i m).1 ≡ some z)
unfolding evict
evict_forced random_r random_i m h k =
    let i = random_i % length m.loaded in
    let inside : i < length m.loaded = grind arith in
    let found = nth_within m.loaded i inside in (found.0, ground (arith, found.1))
