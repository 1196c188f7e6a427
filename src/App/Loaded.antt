-- ===== src/App/Loaded.antt =====
-- The counters of src/app.rs that the manager of src/manager.rs keeps.
use qumulus.App.{ZoneStats, increment, decrement}
use qumulus.Base.{◌≡◌, some, List, [], ◌∷◌, arith}
use qumulus.Manager.Registry.{
  Manager, Effect, local_active_increment, local_loaded_increment, local_loaded_decrement, Signal,
  defer_hibernation, hibernated, request_load, signal,
}
use qumulus.Manager.Registry.Limits.{IsValid}

-- What the effects of the manager do to the counters.
unfoldable pub counted : ZoneStats → List Effect → ZoneStats
unfolding increment decrement
counted s [] = s
counted s (local_active_increment ∷ sent) =
    counted (record s { local_active = increment s.local_active }) sent
counted s (local_loaded_increment ∷ sent) =
    counted (record s { local_loaded = increment s.local_loaded }) sent
counted s (local_loaded_decrement ∷ sent) =
    counted (record s { local_loaded = decrement s.local_loaded }) sent
counted s (_ ∷ sent) = counted s sent

-- The counter of loaded zones is what the manager counts, without a wrap: a signal of a zone that
-- is handled keeps the two equal.
pub signal_counted :
    (m : Manager) (s : Signal) (stats : ZoneStats) {m' : Manager} {sent : List Effect}
    → signal m s ≡ some (m', sent)
    → IsValid m
    → stats.local_loaded.value ≡ m.loaded
    → (counted stats sent).local_loaded.value ≡ m'.loaded
unfolding signal counted
signal_counted m (defer_hibernation zone) stats h v e = ground arith
signal_counted m (hibernated zone) stats h v e = ground arith
signal_counted m (request_load zone) stats h v e = ground arith
