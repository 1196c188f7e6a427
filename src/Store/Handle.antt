-- ===== src/Store/Handle.antt =====
-- src/store/mod.rs, `StoreHandle` and `StoreError`.
use qumulus.Base.{ℕ, Bool, true, false, Option, none, some, List, ◌++◌, map}
use qumulus.Manager.Registry.{ZoneHandle}
use qumulus.Store.Calls
use qumulus.Store.Calls.{StoreCall, handle_write}
use qumulus.Text.{Text, text}
use qumulus.TreePath.{TreePath}
use qumulus.Zone.Data.{ZoneData}

-- Each method sends one call, and panics if the process is gone, which `running` says.
module _ (running : Bool) where
  unfoldable pub send : StoreCall → Option StoreCall
  send call = elim running [ true ↦ some call | false ↦ none ]

  unfoldable pub load : ZoneHandle → TreePath → Option StoreCall
  unfolding send
  load zone path = send (Calls.load zone path)

  unfoldable pub request_write : ZoneHandle → Option StoreCall
  unfolding send
  request_write zone = send (Calls.request_write zone)

  unfoldable pub write : (ZoneData → Text) → ZoneHandle → TreePath → ZoneData → Option StoreCall
  unfolding send
  write serialize zone path stored = send (handle_write serialize zone path stored)

  -- The answer is waited for on a channel of its own, `tx`.
  unfoldable pub load_data : ℕ → TreePath → Option StoreCall
  unfolding send
  load_data tx path = send (Calls.load_data path tx)

  unfoldable pub list : ℕ → Option StoreCall
  unfolding send
  list tx = send (Calls.list tx)

-- `each_zone`: the function is called with each path that arrives, until the store drops the
-- channel.
unfoldable pub each_zone : {A : Type 0} → (TreePath → A) → List TreePath → List A
each_zone f paths = map f paths

-- An error holds another one, of which the description is what is used.
pub data StoreError : Type 0 where
  read_error other_error write_error : Text → StoreError

unfoldable pub description : StoreError → Text
description (read_error err) = err
description (other_error err) = err
description (write_error err) = err

unfoldable pub display : StoreError → Text
display (read_error err) = text "Read error: " ++ err
display (other_error err) = text "Other error: " ++ err
display (write_error err) = text "Write error: " ++ err

unfoldable pub cause : StoreError → Option Text
cause (read_error err) = some err
cause (other_error err) = some err
cause (write_error err) = some err
