-- ===== src/Store/Calls.antt =====
-- src/store/mod.rs, `StoreCall` and `StoreHandle`, and the message loops of both stores.
pub mod Accounts
use qumulus.Base.{ℕ, Bool, Option, none, some, List, [], ◌∷◌, ◌++◌}
use qumulus.Manager.Registry.{ZoneHandle}
use qumulus.Store.Disk.{Outcome}
use qumulus.Store.Fs
use qumulus.Store.Fs.{Fs, Effect}
use qumulus.Text.{Text}
use qumulus.TreePath.{TreePath}
use qumulus.Zone.Data.{ZoneData}

-- A number stands for the channel of an answer.
pub data StoreCall : Type 0 where
  list : ℕ → StoreCall
  load : ZoneHandle → TreePath → StoreCall
  load_data : TreePath → ℕ → StoreCall
  request_write : ZoneHandle → StoreCall
  write : ZoneHandle → TreePath → Text → StoreCall

-- `StoreHandle::write`: the data is serialized before it is sent.
abbrev pub handle_write : (ZoneData → Text) → ZoneHandle → TreePath → ZoneData → StoreCall
handle_write serialize zone path stored = write zone path (serialize stored)

-- What the system and the thread pool make of a call.
pub record Circumstances : Type 0 where
  pub readable : Text → Bool
  pub file_readable : Bool
  pub active_count : ℕ
  pub outcome : Outcome

abbrev done : Fs × List Effect → Option (Fs × List Effect)
done after = some after

module _ (hash : Text → Text) (deserialize : Text → Option ZoneData) where
  -- `FS::message_loop` for one call, with what its worker does.
  unfoldable pub fs_handle : Circumstances → StoreCall → Fs → Option (Fs × List Effect)
  unfolding Fs.list Fs.load Fs.load_data Fs.request_write Fs.write
  fs_handle c (list tx) fs = some (fs, Fs.list hash deserialize c.readable tx fs)
  fs_handle c (load zone path) fs = Fs.load hash deserialize c.file_readable zone path fs
  fs_handle c (load_data path tx) fs = Fs.load_data hash deserialize c.file_readable path tx fs
  fs_handle c (request_write zone) fs = done (Fs.request_write c.active_count zone fs)
  fs_handle c (write zone path serialized) fs = Fs.write hash c.outcome zone path serialized fs

  -- A worker that panics does nothing more; the loop goes on.
  unfoldable pub fs_step : Circumstances → StoreCall → Fs → Fs × List Effect
  unfolding fs_handle
  fs_step c call fs = elim (fs_handle c call fs) [ none ↦ (fs, []) | some after ↦ after ]

  -- The loop over the calls that arrive.
  unfoldable pub fs_loop : List (Circumstances × StoreCall) → Fs → Fs × List Effect
  unfolding fs_step
  fs_loop [] fs = (fs, [])
  fs_loop ((c, call) ∷ calls) fs =
      let (fs', sent) = fs_step c call fs in
      let (fs'', more) = fs_loop calls fs' in (fs'', sent ++ more)

-- `Null::message_loop` for one call: requests and writes are ignored.
unfoldable pub null_handle : StoreCall → List Effect
unfolding Fs.null_load Fs.null_load_data
null_handle (list tx) = []
null_handle (load zone path) = Fs.null_load zone
null_handle (load_data path tx) = Fs.null_load_data tx
null_handle (request_write zone) = []
null_handle (write zone path serialized) = []
