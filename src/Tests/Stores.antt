-- ===== src/Tests/Stores.antt =====
-- The file store, run on a zone or two.
use qumulus.Base.{
  ◌+◌, ◌≤◌, ◌≡◌, ◌≢◌, refl, true, Option, some, List, [], ◌∷◌, ◌++◌, if◌then◌else◌, length, min,
}
use qumulus.Manager.Registry.{ZoneHandle}
use qumulus.Store.Disk.{Disk, Outcome, blocking_write, lookup, tmp_path, default_data}
use qumulus.Store.Disk.Atomic.{blocking_write_atomic}
use qumulus.Store.Filename
use qumulus.Store.Filename.{zonefilename, join}
use qumulus.Store.Filename.Safety.{AllSafe, zonefilename-AllSafe, zonefilename_collides}
use qumulus.Store.Fs.{Fs, Effect, write, load, loaded}
use qumulus.Store.Fs.Served.{woken, finished, write_serves, write_then_load}
use qumulus.Text.{Text, text}
use qumulus.TreePath.{TreePath}
use qumulus.Zone.Data.{ZoneData}

abbrev hash : Text → Text
hash s = text "1F"

abbrev cow : TreePath
cow = text "moo cow" ∷ []

abbrev cow_file : Text
cow_file = text "rmoo_cow_1F"

cow_name : zonefilename hash cow ≡ some cow_file
unfolding zonefilename Filename.join Filename.truncate Filename.sanitize
cow_name = refl

zonefilename-AllSafe_example : AllSafe cow_file × (length cow_file ≤ 81 + length (hash (join cow)))
zonefilename-AllSafe_example = zonefilename-AllSafe hash cow (refl, (refl, tt)) cow_name

zonefilename_collides_example :
    zonefilename hash (text "a.b" ∷ []) ≡ zonefilename hash (text "a" ∷ text "b" ∷ [])
zonefilename_collides_example = zonefilename_collides hash (text "a") (text "b") []

abbrev disk : Disk
disk = (text "r_0", 1 ∷ 2 ∷ []) ∷ (cow_file, 3 ∷ []) ∷ []

other_file : text "r_0" ≢ cow_file
other_file h = cc

other_tmp : text "r_0" ≢ tmp_path cow_file
other_tmp h = cc

-- A write that fails half-way.
blocking_write_atomic_example :
    let (written, disk') = blocking_write (Outcome.write_fails 1) cow_file (7 ∷ 8 ∷ []) disk in
    (lookup cow_file disk' ≡ (if written then some (7 ∷ 8 ∷ []) else lookup cow_file disk))
    × (lookup (text "r_0") disk' ≡ lookup (text "r_0") disk)
blocking_write_atomic_example =
    blocking_write_atomic (Outcome.write_fails 1) cow_file (text "r_0") (7 ∷ 8 ∷ []) disk other_file
      other_tmp

abbrev zone_cow : ZoneHandle
zone_cow = record { path = cow }

abbrev zone_root : ZoneHandle
zone_root = record { path = [] }

abbrev busy : Fs
busy = record { dir = disk; write_queue = zone_root ∷ zone_cow ∷ [] }

write_serves_example :
    (fs' : Fs) × (sent : List Effect) × (write hash Outcome.rename_fails zone_cow cow (7 ∷ []) busy
      ≡ some (fs', sent))
    × (woken sent ++ fs'.write_queue ≡ busy.write_queue)
    × (length (woken sent) ≡ min 1 (length busy.write_queue))
    × (finished sent ≡ (
        if (blocking_write Outcome.rename_fails cow_file (7 ∷ []) disk).0
        then zone_cow ∷ []
        else []))
write_serves_example =
    write_serves hash Outcome.rename_fails zone_cow cow (7 ∷ []) busy {file = cow_file} cow_name

-- A serializer for the one zone that is stored here.
abbrev serialize : ZoneData → Text
serialize stored = 5 ∷ []

abbrev deserialize : Text → Option ZoneData
deserialize bytes = some default_data

write_then_load_example :
    (fs' : Fs) × (sent : List Effect) × (write hash Outcome.succeeds zone_cow cow
        (serialize default_data)
        busy
      ≡ some (fs', sent))
    × (load hash deserialize true zone_root cow fs'
        ≡ some (fs', loaded zone_root default_data ∷ []))
write_then_load_example =
    write_then_load hash serialize deserialize zone_cow zone_root cow default_data busy
      {file = cow_file} refl cow_name
