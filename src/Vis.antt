-- ===== src/Vis.antt =====
-- src/node.rs, `struct Vis`: the two timestamps that decide whether a node is visible.
pub mod Laws
use qumulus.Base.{ℕ, Bool, ◌&&◌, ltb, ◌==◌, if◌then◌else◌}

pub record Vis : Type 0 where
  pub updated : ℕ  -- u64
  pub deleted : ℕ  -- u64

abbrev pub u64_max : ℕ
u64_max = 18446744073709551615

-- `Vis::new`; `Default` is `vis 0 0`.
abbrev pub vis : ℕ → ℕ → Vis
vis updated deleted = record { updated = updated; deleted = deleted }

abbrev pub default : Vis
default = vis 0 0

abbrev pub update : ℕ → Vis
update updated = vis updated 0

abbrev pub delete : ℕ → Vis
delete deleted = vis 0 deleted

-- Visible at every time.
abbrev pub permanent : Vis
permanent = update u64_max

-- The effective visibility of a child: the parent's `self`, narrowed by the child's own.
unfoldable pub descend : Vis → Vis → Vis
descend self child = record {
  updated = if ltb child.updated self.updated then child.updated else self.updated;
  deleted = if ltb self.deleted child.deleted then child.deleted else self.deleted;
}

unfoldable pub is_noop : Vis → Bool
is_noop self = self.updated == 0 && self.deleted == 0

unfoldable pub is_visible : Vis → Bool
is_visible self = ltb self.deleted self.updated

-- Keeps the newest of each timestamp.
unfoldable pub merge : Vis → Vis → Vis
merge self diff = record {
  updated = if ltb self.updated diff.updated then diff.updated else self.updated;
  deleted = if ltb self.deleted diff.deleted then diff.deleted else self.deleted;
}
