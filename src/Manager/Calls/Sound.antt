-- ===== src/Manager/Calls/Sound.antt =====
-- The manager's loop in src/manager.rs keeps what its operations keep.
use qumulus.App.{ZoneStats}
use qumulus.App.Loaded.{counted, signal_counted}
use qumulus.Base.{
  ℕ, ◌≡◌, refl, ap, subst, sym, ◌∙◌, none, some, Option, inl, inr, Option-cases, List, [], ◌∷◌,
  ◌++◌, arith,
}
use qumulus.Manager.Calls.{
  ManagerCall, Boxed, nearest, Output, effects, answer, prepend, effect, reply, handle,
  message_loop, find_nearest, find, load, zone_loaded, list, signal_defer_hibernation,
  signal_hibernated, signal_request_load,
}
use qumulus.Manager.Registry
use qumulus.Manager.Registry.{
  Manager, Effect, signal, Signal, defer_hibernation, hibernated, request_load,
}
use qumulus.Manager.Registry.Limits.{IsValid, signal-IsValid}
use qumulus.Manager.Registry.Placed.{IsPlaced, load-IsPlaced}
use qumulus.TreePath.{TreePath}

-- The registry, the number and the counter of loaded zones.
pub record IsSound (m : Manager) (stats : ZoneStats) : Type 0 where
  pub valid : IsValid m
  pub placed : IsPlaced m.active
  pub counted : stats.local_loaded.value ≡ m.loaded

signal-active :
    (m : Manager) (s : Signal) {m' : Manager} {sent : List Effect}
    → signal m s ≡ some (m', sent)
    → m'.active ≡ m.active
unfolding signal
signal-active m (defer_hibernation zone) h = ground arith
signal-active m (hibernated zone) h = ground arith
signal-active m (request_load zone) h = ground arith

signal-IsSound :
    (m : Manager) (s : Signal) (stats : ZoneStats) {m' : Manager} {sent : List Effect}
    → signal m s ≡ some (m', sent)
    → IsSound m stats
    → IsSound m' (counted stats sent)
signal-IsSound m s stats h v = record {
  valid = signal-IsValid m s h v.valid;
  placed = rw (signal-active m s h) v.placed;
  counted = signal_counted m s stats h v.valid v.counted;
}

load-IsSound :
    (m : Manager) (path : TreePath) (stats : ZoneStats)
    → IsSound m stats
    → IsSound (Registry.load m path).1 (counted stats (Registry.load m path).2)
unfolding Registry.load counted
load-IsSound m path stats v = record {
  valid = record { at_most = ground arith; full = λ h. ground arith };
  placed = (load-IsPlaced m path v.placed).1;
  counted = ground arith;
}

-- Whatever a call leaves is sound.
abbrev LeavesSound : ZoneStats → Option (Boxed × Manager × List Effect) → Type 0
LeavesSound stats none = Unit
LeavesSound stats (some (result, m, sent)) = IsSound m (counted stats sent)

nearest_leaves :
    (m : Manager) (stats : ZoneStats) (o : Option (TreePath × Registry.ZoneHandle))
    → IsSound m stats
    → LeavesSound stats (elim o [ none ↦ none | some found ↦ some (nearest found, m, []) ])
unfolding counted
nearest_leaves m stats none v = tt
nearest_leaves m stats (some found) v = v

hibernated_leaves :
    (m : Manager) (z : Registry.ZoneHandle) (stats : ZoneStats)
    → IsSound m stats
    → LeavesSound stats (handle 0 (signal_hibernated z) m)
unfolding handle signal
hibernated_leaves m z stats v = elim (Option-cases (Registry.zone_hibernated m z)) [
  | inl e ↦ rw (e, LeavesSound) tt
  | inr (after, e) ↦ rw (e, LeavesSound) (signal-IsSound m (hibernated z) stats e v)
]

handle-LeavesSound :
    (fuel : ℕ) (call : ManagerCall) (m : Manager) (stats : ZoneStats)
    → IsSound m stats
    → LeavesSound stats (handle fuel call m)
unfolding handle counted signal
handle-LeavesSound fuel (find_nearest path) m stats v =
    nearest_leaves m stats (Registry.find_nearest fuel m.active path) v
handle-LeavesSound fuel (find path) m stats v = v
handle-LeavesSound fuel (load path) m stats v = load-IsSound m path stats v
handle-LeavesSound fuel (zone_loaded path) m stats v = v
handle-LeavesSound fuel list m stats v = v
handle-LeavesSound fuel (signal_defer_hibernation z) m stats v =
    signal-IsSound m (defer_hibernation z) stats refl v
handle-LeavesSound fuel (signal_hibernated z) m stats v = hibernated_leaves m z stats v
handle-LeavesSound fuel (signal_request_load z) m stats v =
    signal-IsSound m (request_load z) stats refl v

-- The counters after what the loop sends.
abbrev pub counted_all : ZoneStats → List Output → ZoneStats
counted_all stats [] = stats
counted_all stats (effect e ∷ out) = counted_all (counted stats (e ∷ [])) out
counted_all stats (reply tx result ∷ out) = counted_all stats out

counted-cons :
    (stats : ZoneStats) (e : Effect) (sent : List Effect)
    → counted stats (e ∷ sent) ≡ counted (counted stats (e ∷ [])) sent
unfolding counted
counted-cons stats (Registry.spawn_zone p) sent = refl
counted-cons stats (Registry.load_zone_call z) sent = refl
counted-cons stats (Registry.tell_eviction c) sent = refl
counted-cons stats Registry.local_active_increment sent = refl
counted-cons stats Registry.local_loaded_increment sent = refl
counted-cons stats Registry.local_loaded_decrement sent = refl

counted_all-effects :
    (stats : ZoneStats) (sent : List Effect) (tx : Option ℕ) (result : Boxed) (more : List Output)
    → counted_all stats ((effects sent ++ answer tx result) ++ more)
      ≡ counted_all (counted stats sent) more
unfolding counted
counted_all-effects stats [] none result more = refl
counted_all-effects stats [] (some tx) result more = refl
counted_all-effects stats (e ∷ sent) tx result more =
    counted_all-effects (counted stats (e ∷ [])) sent tx result more
    ∙ ap (λ s. counted_all s more) (sym (counted-cons stats e sent))

abbrev LoopSound : ZoneStats → Option (Manager × List Output) → Type 0
LoopSound stats none = Unit
LoopSound stats (some (m, out)) = IsSound m (counted_all stats out)

prepend-LoopSound :
    (stats : ZoneStats) (sent : List Effect) (tx : Option ℕ) (result : Boxed)
    (o : Option (Manager × List Output))
    → LoopSound (counted stats sent) o
    → LoopSound stats (prepend (effects sent ++ answer tx result) o)
prepend-LoopSound stats sent tx result none h = tt
prepend-LoopSound stats sent tx result (some (m, more)) h =
    rw (counted_all-effects stats sent tx result more) h

message_loop-LoopSound :
    (fuel : ℕ) (calls : List (Option ℕ × ManagerCall)) (m : Manager) (stats : ZoneStats)
    → IsSound m stats
    → LoopSound stats (message_loop fuel m calls)
unfolding message_loop
message_loop-LoopSound fuel [] m stats v = v
message_loop-LoopSound fuel ((tx, call) ∷ calls) m stats v =
    elim (Option-cases (handle fuel call m)) [
      | inl e ↦ rw (e, LoopSound) tt
      | inr ((result, m', sent), e) ↦
          let after = subst (LeavesSound stats) e (handle-LeavesSound fuel call m stats v) in
          rw (e, LoopSound)
            (prepend-LoopSound stats sent tx result (message_loop fuel m' calls)
              (message_loop-LoopSound fuel calls m' (counted stats sent) after))
    ]

-- Whatever calls arrive, the loop keeps at most 801 zones loaded, one more than MAX_LOADED_HARD, lets
-- zones wait only at that number, and keeps every zone under its own path and the counter of loaded
-- zones equal to the manager's. This is where these hold at first, and as long as the loop neither
-- panics nor searches beyond its fuel.
pub message_loop-IsSound :
    (fuel : ℕ) (calls : List (Option ℕ × ManagerCall)) (m : Manager) (stats : ZoneStats)
    {m' : Manager} {out : List Output}
    → message_loop fuel m calls ≡ some (m', out)
    → IsSound m stats
    → IsSound m' (counted_all stats out)
message_loop-IsSound fuel calls m stats h v =
    subst (LoopSound stats) h (message_loop-LoopSound fuel calls m stats v)
