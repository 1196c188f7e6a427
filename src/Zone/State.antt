-- ===== src/Zone/State.antt =====
-- src/zone.rs, `ZoneState`: a number from `idle` to `writing`.
use qumulus.Base.{ℕ, Bool, leb, ◌==◌}

abbrev pub idle : ℕ
idle = 0

abbrev pub init : ℕ
init = 1

abbrev pub loading : ℕ
loading = 2

abbrev pub active : ℕ
active = 3

abbrev pub dirty : ℕ
dirty = 4

abbrev pub writing : ℕ
writing = 5

abbrev pub is_idle : ℕ → Bool
is_idle state = state == idle

abbrev pub is_init : ℕ → Bool
is_init state = state == init

abbrev pub is_loading : ℕ → Bool
is_loading state = state == loading

abbrev pub is_active : ℕ → Bool
is_active state = state == active

abbrev pub is_dirty : ℕ → Bool
is_dirty state = state == dirty

abbrev pub is_writing : ℕ → Bool
is_writing state = state == writing

-- Reads and writes are allowed.
abbrev pub is_ready : ℕ → Bool
is_ready state = leb active state
