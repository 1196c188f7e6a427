-- ===== src/Store/Disk.antt =====
-- src/store/fs.rs, `blocking_read` and `blocking_write`, on a disk that maps file names to bytes.
-- What the system makes of each call is an argument.
pub mod Atomic
use qumulus.Base.{
  ℕ, Bool, true, false, Option, none, some, List, [], ◌∷◌, ◌++◌, if◌then◌else◌, take,
}
use qumulus.Node
use qumulus.Text.{Text, text, text_eq}
use qumulus.Zone.Data.{ZoneData}

abbrev pub Disk : Type 0
Disk = List (Text × Text)

unfoldable pub lookup : Text → Disk → Option Text
lookup f [] = none
lookup f ((g, bytes) ∷ disk) = elim (text_eq f g) [ true ↦ some bytes | false ↦ lookup f disk ]

unfoldable pub put : Text → Text → Disk → Disk
put f bytes [] = (f, bytes) ∷ []
put f bytes ((g, old) ∷ disk) = elim (text_eq f g) [
  | true ↦ (g, bytes) ∷ disk
  | false ↦ (g, old) ∷ put f bytes disk
]

unfoldable pub remove : Text → Disk → Disk
remove f [] = []
remove f ((g, old) ∷ disk) =
    let rest = remove f disk in elim (text_eq f g) [ true ↦ rest | false ↦ (g, old) ∷ rest ]

-- `with_extension("tmp")` of a name without a dot.
abbrev pub tmp_path : Text → Text
tmp_path f = f ++ text ".tmp"

-- Where a write fails; a failed write may have written some bytes.
pub data Outcome : Type 0 where
  create_fails : Outcome
  write_fails : ℕ → Outcome
  rename_fails : Outcome
  succeeds : Outcome

-- Whether it was written, and the disk.
unfoldable pub blocking_write : Outcome → Text → Text → Disk → Bool × Disk
unfolding put remove
blocking_write create_fails f serialized disk = (false, disk)
blocking_write (write_fails n) f serialized disk =
    (false, put (tmp_path f) (take n serialized) disk)
blocking_write rename_fails f serialized disk = (false, put (tmp_path f) serialized disk)
blocking_write succeeds f serialized disk =
    (true, put f serialized (remove (tmp_path f) (put (tmp_path f) serialized disk)))

abbrev pub default_data : ZoneData
default_data = record { path = []; tree = Node.default_tree }

-- bincode's reader, and whether the file can be read; a missing file reads as an empty zone.
unfoldable pub blocking_read : (Text → Option ZoneData) → Bool → Text → Disk → Option ZoneData
unfolding lookup
blocking_read deserialize readable f disk = elim (lookup f disk) [
  | none ↦ some default_data
  | some buffer ↦ if readable then deserialize buffer else none
]
