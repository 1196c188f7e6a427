-- ===== src/Manager/Registry/Limits.antt =====
-- How many zones are loaded, and which wait.
use qumulus.Base.{
  ℕ, ◌+◌, ◌≤◌, ◌≡◌, refl, ◌⊎◌, inl, inr, false, some, List, [], ◌∷◌, ◌++◌, length, is_empty, arith,
}
use mathlib.Core.List.{append-nil}
use qumulus.Manager.Registry.{
  ZoneHandle, Manager, Effect, load_zone_call, Signal, defer_hibernation, hibernated, request_load,
  signal, new, max_loaded_hard,
}

-- At most one zone over the limit is loaded, and zones wait only at that number.
pub record IsValid (m : Manager) : Type 0 where
  pub at_most : m.loaded ≤ max_loaded_hard + 1
  pub full : is_empty m.requesting_load ≡ false → m.loaded ≡ max_loaded_hard + 1

pub new-IsValid : IsValid new
unfolding new
new-IsValid = ground arith

is_empty-snoc : (zs : List ZoneHandle) (z : ZoneHandle) → is_empty (zs ++ z ∷ []) ≡ false
is_empty-snoc [] z = refl
is_empty-snoc (y ∷ zs) z = refl

-- Every signal of a zone keeps at most 801 zones loaded, and lets none wait below that number.
pub signal-IsValid :
    (m : Manager) (s : Signal) {m' : Manager} {sent : List Effect}
    → signal m s ≡ some (m', sent)
    → IsValid m
    → IsValid m'
unfolding signal
signal-IsValid m (defer_hibernation zone) h v = ground arith
signal-IsValid m (hibernated zone) h v = ground arith
signal-IsValid m (request_load zone) h v = ground (arith, is_empty-snoc m.requesting_load zone)

-- The zones that are told to load, and the zone that asks for it.
abbrev pub loads : List Effect → List ZoneHandle
loads [] = []
loads (load_zone_call z ∷ sent) = z ∷ loads sent
loads (_ ∷ sent) = loads sent

abbrev pub requests : Signal → List ZoneHandle
requests (request_load z) = z ∷ []
requests _ = []

abbrev pub hibernations : Signal → ℕ
hibernations (hibernated z) = 1
hibernations _ = 0

waits_of : (zs : List ZoneHandle) → (zs ≡ []) ⊎ (is_empty zs ≡ false)
waits_of [] = inl refl
waits_of (z ∷ zs) = inr refl

-- Zones are told to load in the order in which they ask, none lost or repeated: those that wait and
-- the one that asks are those that are told to load and then those that wait afterwards. The count
-- of loaded zones goes up with each load and down with each hibernation. Before, zones wait only
-- where 801 are loaded, which is the number that the manager admits.
pub signal_accounts :
    (m : Manager) (s : Signal) {m' : Manager} {sent : List Effect}
    → signal m s ≡ some (m', sent)
    → IsValid m
    → (m.requesting_load ++ requests s ≡ loads sent ++ m'.requesting_load)
      × (m'.loaded + hibernations s ≡ m.loaded + length (loads sent))
unfolding signal
signal_accounts m (defer_hibernation zone) h v =
    (ground (arith, append-nil m.requesting_load), ground arith)
signal_accounts m (hibernated zone) h v =
    (ground (arith, append-nil m.requesting_load), ground arith)
signal_accounts m (request_load zone) h v =
    (ground (arith, v.full, waits_of m.requesting_load), ground arith)
