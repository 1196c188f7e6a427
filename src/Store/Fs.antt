-- ===== src/Store/Fs.antt =====
-- src/store/fs.rs, `FS`, and src/store/null.rs, `Null`: what a store does with each call.
pub mod Served
use qumulus.Base.{ℕ, Bool, true, false, Option, none, some, List, [], ◌∷◌, ◌++◌, leb, if◌then◌else◌}
use qumulus.Manager.Registry.{ZoneHandle}
use qumulus.Store.Disk.{Disk, Outcome, blocking_read, blocking_write, default_data}
use qumulus.Store.Filename.{zonefilename}
use qumulus.Text.{Text}
use qumulus.TreePath.{TreePath}
use qumulus.Zone.Data.{ZoneData}

abbrev pub num_threads : ℕ
num_threads = 50

-- The directory, and the zones that wait to write.
pub record Fs : Type 0 where
  pub dir : Disk
  pub write_queue : List ZoneHandle

-- What a store sends.
pub data Effect : Type 0 where
  loaded : ZoneHandle → ZoneData → Effect
  save : ZoneHandle → Effect
  saved : ZoneHandle → Effect
  reply_path : ℕ → TreePath → Effect
  reply_data : ℕ → Option ZoneData → Effect

abbrev sends : Fs → List Effect → Option (Fs × List Effect)
sends fs sent = some (fs, sent)

-- An unreadable zone is only logged.
abbrev pub notify_loaded : ZoneHandle → Option ZoneData → List Effect
notify_loaded zone none = []
notify_loaded zone (some node) = loaded zone node ∷ []

abbrev reply_paths : ℕ → Option ZoneData → List Effect → List Effect
reply_paths tx none rest = rest
reply_paths tx (some node) rest = reply_path tx node.path ∷ rest

-- The first zone that waits to write is woken.
abbrev pub wake : Fs → List ZoneHandle → List Effect → Fs × List Effect
wake fs [] sent = (fs, sent)
wake fs (zone ∷ waiting) sent = (record fs { write_queue = waiting }, sent ++ save zone ∷ [])

-- The thread pool's number of active workers is an argument.
unfoldable pub request_write : ℕ → ZoneHandle → Fs → Fs × List Effect
request_write active_count zone fs =
    if leb num_threads active_count
    then (record fs { write_queue = fs.write_queue ++ zone ∷ [] }, [])
    else (fs, save zone ∷ [])

-- A worker panics, as `none`, where the file name cannot be made.
module _ (hash : Text → Text) (deserialize : Text → Option ZoneData) where
  unfoldable pub list_from : (Text → Bool) → ℕ → Disk → Disk → List Effect
  unfolding blocking_read
  list_from readable tx dir [] = []
  list_from readable tx dir ((entry, bytes) ∷ entries) =
      reply_paths tx (blocking_read deserialize (readable entry) entry dir)
        (list_from readable tx dir entries)

  unfoldable pub list : (Text → Bool) → ℕ → Fs → List Effect
  unfolding list_from
  list readable tx fs = list_from readable tx fs.dir fs.dir

  unfoldable pub load : Bool → ZoneHandle → TreePath → Fs → Option (Fs × List Effect)
  unfolding zonefilename blocking_read
  load readable zone path fs = elim (zonefilename hash path) [
    | none ↦ none
    | some file ↦ sends fs (notify_loaded zone (blocking_read deserialize readable file fs.dir))
  ]

  unfoldable pub load_data : Bool → TreePath → ℕ → Fs → Option (Fs × List Effect)
  unfolding zonefilename blocking_read
  load_data readable path tx fs = elim (zonefilename hash path) [
    | none ↦ none
    | some file ↦ sends fs (reply_data tx (blocking_read deserialize readable file fs.dir) ∷ [])
  ]

abbrev pub after_write : Fs → ZoneHandle → Bool × Disk → Fs × List Effect
after_write fs zone (written, dir) =
    wake (record fs { dir = dir }) fs.write_queue (if written then saved zone ∷ [] else [])

-- A failed write is only logged, and the zone is not told.
unfoldable pub write :
    (Text → Text) → Outcome → ZoneHandle → TreePath → Text → Fs → Option (Fs × List Effect)
unfolding zonefilename blocking_write
write hash outcome zone path serialized fs = elim (zonefilename hash path) [
  | none ↦ none
  | some file ↦ some (after_write fs zone (blocking_write outcome file serialized fs.dir))
]

-- The null store loads empty zones, and neither lists nor writes.
unfoldable pub null_load : ZoneHandle → List Effect
null_load zone = loaded zone default_data ∷ []

unfoldable pub null_load_data : ℕ → List Effect
null_load_data tx = reply_data tx (some default_data) ∷ []
