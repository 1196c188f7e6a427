-- ===== src/Manager/Calls.antt =====
-- src/manager.rs: the calls of `ManagerHandle`, how `Manager::message_loop` answers them, and what
-- a caller makes of the answer, which travels as a `Box<Any>`.
pub mod Sound
use qumulus.Base.{ℕ, Bool, Option, none, some, List, [], ◌∷◌, ◌++◌}
use qumulus.Manager.Registry
use qumulus.Manager.Registry.{Manager, ZoneHandle, Effect}
use qumulus.TreePath.{TreePath}

pub data ManagerCall : Type 0 where
  find_nearest find load zone_loaded : TreePath → ManagerCall
  list : ManagerCall
  signal_defer_hibernation signal_hibernated signal_request_load : ZoneHandle → ManagerCall

-- The types that the loop puts into a box.
pub data Boxed : Type 0 where
  optional_zone : Option ZoneHandle → Boxed
  nearest : TreePath × ZoneHandle → Boxed
  zones : List ZoneHandle → Boxed
  zone : ZoneHandle → Boxed
  boolean : Bool → Boxed
  unit : Boxed

abbrev boxed_unit : Manager × List Effect → Option (Boxed × Manager × List Effect)
boxed_unit (m, sent) = some (unit, m, sent)

-- One call; `none` is a panic, or the loop of `find_nearest` beyond its fuel.
unfoldable pub handle : ℕ → ManagerCall → Manager → Option (Boxed × Manager × List Effect)
unfolding Registry.find Registry.find_nearest Registry.list Registry.load Registry.zone_loaded
    Registry.zone_defer_hibernation Registry.zone_hibernated Registry.load_zone
handle fuel (find path) m = some (optional_zone (Registry.find m path), m, [])
handle fuel (find_nearest path) m = elim (Registry.find_nearest fuel m.active path) [
  | none ↦ none
  | some found ↦ some (nearest found, m, [])
]
handle fuel list m = some (zones (Registry.list m), m, [])
handle fuel (load path) m = let (z, m', sent) = Registry.load m path in some (zone z, m', sent)
handle fuel (zone_loaded path) m = some (boolean (Registry.zone_loaded m path), m, [])
handle fuel (signal_defer_hibernation z) m = boxed_unit (Registry.zone_defer_hibernation m z)
handle fuel (signal_hibernated z) m = elim (Registry.zone_hibernated m z) [
  | none ↦ none
  | some after ↦ boxed_unit after
]
handle fuel (signal_request_load z) m = boxed_unit (Registry.load_zone m z)

-- What the manager sends: its effects, and the answer to a caller that waits at a channel.
pub data Output : Type 0 where
  effect : Effect → Output
  reply : ℕ → Boxed → Output

abbrev pub effects : List Effect → List Output
effects [] = []
effects (e ∷ sent) = effect e ∷ effects sent

abbrev pub answer : Option ℕ → Boxed → List Output
answer none result = []
answer (some tx) result = reply tx result ∷ []

abbrev pub prepend : List Output → Option (Manager × List Output) → Option (Manager × List Output)
prepend out none = none
prepend out (some (m, more)) = some (m, out ++ more)

-- The loop over the calls that arrive. It blocks when there are no more.
unfoldable pub message_loop :
    ℕ → Manager → List (Option ℕ × ManagerCall) → Option (Manager × List Output)
unfolding handle
message_loop fuel m [] = some (m, [])
message_loop fuel m ((tx, call) ∷ calls) = elim (handle fuel call m) [
  | none ↦ none
  | some (result, m', sent) ↦
      prepend (effects sent ++ answer tx result) (message_loop fuel m' calls)
]

-- `*result.downcast::<T>().unwrap()`, for each type that a method asks for.
abbrev pub as_optional_zone : Boxed → Option (Option ZoneHandle)
as_optional_zone (optional_zone z) = some z
as_optional_zone _ = none

abbrev pub as_nearest : Boxed → Option (TreePath × ZoneHandle)
as_nearest (nearest found) = some found
as_nearest _ = none

abbrev pub as_zones : Boxed → Option (List ZoneHandle)
as_zones (zones zs) = some zs
as_zones _ = none

abbrev pub as_zone : Boxed → Option ZoneHandle
as_zone (zone z) = some z
as_zone _ = none

abbrev pub as_boolean : Boxed → Option Bool
as_boolean (boolean b) = some b
as_boolean _ = none

-- What a caller gets: nothing, if the manager does not answer; a panic, if the box holds another
-- type; or the answer, and the manager after the call.
pub data Called (A : Type 0) : Type 0 where
  unanswered : Called A
  bad_downcast : Called A
  answered : A → Manager → List Effect → Called A

abbrev downcast : {A : Type 0} → Option A → Manager → List Effect → Called A
downcast none m sent = bad_downcast
downcast (some a) m sent = answered a m sent

abbrev pub call :
    {A : Type 0} → (Boxed → Option A) → Option (Boxed × Manager × List Effect) → Called A
call as_a none = unanswered
call as_a (some (result, m, sent)) = downcast (as_a result) m sent
