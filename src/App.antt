-- ===== src/App.antt =====
-- src/app.rs: the counters that all parts of the program share. A counter is an atomic `usize` of
-- 64 bits, and wraps.
pub mod Loaded
use qumulus.Base.{ℕ, ◌+◌, ◌-◌, ◌%◌, ◌^◌, List, [], ◌∷◌}
use qumulus.Command
use qumulus.Command.{Call}

abbrev pub usize_count : ℕ
usize_count = 2 ^ 64

pub record Stat : Type 0 where
  pub value : ℕ

-- `fetch_add(1)`.
unfoldable pub increment : Stat → Stat
increment s = record { value = (s.value + 1) % usize_count }

-- `fetch_sub(1)`.
unfoldable pub decrement : Stat → Stat
decrement s = record { value = (s.value + (usize_count - 1)) % usize_count }

-- `store`; the argument is a `usize`.
unfoldable pub set : ℕ → Stat → Stat
set value s = record { value = value }

abbrev pub zeroed : Stat
zeroed = record { value = 0 }

pub record CommandStats : Type 0 where
  pub bind : Stat
  pub kill : Stat
  pub read : Stat
  pub write : Stat

pub record ClientStats : Type 0 where
  pub connects : Stat
  pub disconnects : Stat
  pub commands : CommandStats
  pub replies : Stat

pub record ClusterStats : Type 0 where
  pub broadcast : Stat
  pub handle_cluster_message : Stat
  pub replicas : Stat
  pub replicate : Stat

pub record StoreStats : Type 0 where
  pub reads : Stat
  pub reads_pending : Stat
  pub reads_errors : Stat
  pub writes : Stat
  pub writes_pending : Stat
  pub writes_errors : Stat

pub record ZoneStats : Type 0 where
  pub local_active : Stat
  pub local_loaded : Stat

pub record Stats : Type 0 where
  pub clients : ClientStats
  pub cluster : ClusterStats
  pub store : StoreStats
  pub zones : ZoneStats

-- `CommandStats::increment`.
unfoldable pub increment_call : Call → CommandStats → CommandStats
unfolding increment
increment_call Command.bind s = record s { bind = increment s.bind }
increment_call Command.kill s = record s { kill = increment s.kill }
increment_call Command.read s = record s { read = increment s.read }
increment_call Command.write s = record s { write = increment s.write }

-- The counter of the calls of one kind.
abbrev pub count_of : Call → CommandStats → Stat
count_of Command.bind s = s.bind
count_of Command.kill s = s.kill
count_of Command.read s = s.read
count_of Command.write s = s.write
