-- ===== src/Store/Fs/Served.antt =====
-- What src/store/fs.rs promises the zones: they are woken in turn, and read what they wrote.
use qumulus.Base.{
  ◌≡◌, refl, ap, ◌∙◌, Bool, true, false, Option, some, List, [], ◌∷◌, ◌++◌, if◌then◌else◌, arith,
  length, min,
}
use qumulus.Manager.Registry.{ZoneHandle}
use qumulus.Store.Disk.{Outcome, succeeds, lookup, blocking_write, blocking_read}
use qumulus.Store.Disk.Atomic.{lookup-put_self}
use qumulus.Store.Filename.{zonefilename}
use qumulus.Store.Fs.{Fs, Effect, save, saved, loaded, write, load, wake, after_write}
use qumulus.Text.{Text}
use qumulus.TreePath.{TreePath}
use qumulus.Zone.Data.{ZoneData}

-- The zones that are told to save, and those that are told that they are saved.
abbrev pub woken : List Effect → List ZoneHandle
woken [] = []
woken (save zone ∷ sent) = zone ∷ woken sent
woken (_ ∷ sent) = woken sent

abbrev pub finished : List Effect → List ZoneHandle
finished [] = []
finished (saved zone ∷ sent) = zone ∷ finished sent
finished (_ ∷ sent) = finished sent

wake_serves :
    (fs : Fs) (zone : ZoneHandle) (queue : List ZoneHandle) (written : Bool)
    → fs.write_queue ≡ queue
    → let (fs', sent) = wake fs queue (if written then saved zone ∷ [] else []) in
      (woken sent ++ fs'.write_queue ≡ queue)
      × (length (woken sent) ≡ min 1 (length queue))
      × (finished sent ≡ (if written then zone ∷ [] else []))
wake_serves fs zone [] true e = (e, refl, refl)
wake_serves fs zone [] false e = (e, refl, refl)
wake_serves fs zone (z ∷ queue) true e = (refl, omega arith, refl)
wake_serves fs zone (z ∷ queue) false e = (refl, omega arith, refl)

-- A write that ends, well or not, wakes the zone that has waited longest, if one waits, keeps the
-- others in their order, and tells its own zone that it is saved exactly when it was written.
pub write_serves :
    (hash : Text → Text) (o : Outcome) (zone : ZoneHandle) (path : TreePath) (bytes : Text)
    (fs : Fs) {file : Text}
    → zonefilename hash path ≡ some file
    → (fs' : Fs) × (sent : List Effect) × (write hash o zone path bytes fs ≡ some (fs', sent))
      × (woken sent ++ fs'.write_queue ≡ fs.write_queue)
      × (length (woken sent) ≡ min 1 (length fs.write_queue))
      × (finished sent ≡ (if (blocking_write o file bytes fs.dir).0 then zone ∷ [] else []))
unfolding write
write_serves hash o zone path bytes fs {file} e =
    let result = blocking_write o file bytes fs.dir in
    let after = after_write fs zone result in
    let serves = wake_serves (record fs { dir = result.1 }) zone fs.write_queue result.0 refl in
    (after.0, after.1, ground arith, serves.0, serves.1, serves.2)

wake-dir :
    (fs : Fs) (queue : List ZoneHandle) (sent : List Effect) → (wake fs queue sent).0.dir ≡ fs.dir
wake-dir fs [] sent = refl
wake-dir fs (z ∷ queue) sent = refl

load_stored :
    (hash : Text → Text) (deserialize : Text → Option ZoneData) (reader : ZoneHandle)
    (path : TreePath) (fs : Fs) {file bytes : Text} {found : ZoneData}
    → zonefilename hash path ≡ some file
    → lookup file fs.dir ≡ some bytes
    → deserialize bytes ≡ some found
    → load hash deserialize true reader path fs ≡ some (fs, loaded reader found ∷ [])
unfolding load blocking_read
load_stored hash deserialize reader path fs e l d = ground arith

-- A zone that was written is loaded again as it was, where bincode reads back what it made of the
-- zone's data and the file can be read.
pub write_then_load :
    (hash : Text → Text) (serialize : ZoneData → Text) (deserialize : Text → Option ZoneData)
    (zone reader : ZoneHandle) (path : TreePath) (stored : ZoneData) (fs : Fs) {file : Text}
    → deserialize (serialize stored) ≡ some stored
    → zonefilename hash path ≡ some file
    → (fs' : Fs) × (sent : List Effect) × (write hash succeeds zone path (serialize stored) fs
        ≡ some (fs', sent))
      × (load hash deserialize true reader path fs' ≡ some (fs', loaded reader stored ∷ []))
unfolding write blocking_write
write_then_load hash serialize deserialize zone reader path stored fs {file} d e =
    let bytes = serialize stored in
    let result = blocking_write succeeds file bytes fs.dir in
    let after = after_write fs zone result in
    let kept = wake-dir (record fs { dir = result.1 }) fs.write_queue (saved zone ∷ []) in
    let there : lookup file after.0.dir ≡ some bytes =
      ap (lookup file) kept ∙ lookup-put_self file bytes _ in
    (after.0, after.1, ground arith, load_stored hash deserialize reader path after.0 e there d)
