-- ===== src/Update.antt =====
-- src/node.rs: `Update`, the effective changes that listeners and readers are sent.
pub mod Reply
pub mod Shown
pub mod Listened
pub mod Entries
use Prim.Native.Nat.{Ordering}
use qumulus.Base.{Bool, true, false, not, ◌&&◌, Option, none, some, is_none}
use qumulus.Text.{Text, text_cmp}
use qumulus.Value.{Value}

-- The fields are `changed`, `old`, `new`, `keys` and `delegated`.
mutual
  pub data Update : Type 0 where
    update : Bool → Option Value → Option Value → Keys → Option Bool → Update

  pub data Keys : Type 0 where
    no_keys : Keys
    some_keys : Children → Keys

  pub data Children : Type 0 where
    nil : Children
    cons : Text → Update → Children → Children

abbrev pub default : Update
default = update false none none no_keys none

abbrev pub changed_of : Update → Bool
changed_of (update c o n ks d) = c

abbrev pub new_of : Update → Option Value
new_of (update c o n ks d) = n

abbrev pub keys_of : Update → Keys
keys_of (update c o n ks d) = ks

abbrev pub children_of : Keys → Children
children_of no_keys = nil
children_of (some_keys c) = c

unfoldable pub get_child : Text → Children → Option Update
get_child k nil = none
get_child k (cons j u c) = elim (text_cmp k j) [
  | Ordering.lt ↦ none
  | Ordering.eq ↦ some u
  | Ordering.gt ↦ get_child k c
]

unfoldable pub insert_child : Text → Update → Children → Children
insert_child k w nil = cons k w nil
insert_child k w (cons j u c) = elim (text_cmp k j) [
  | Ordering.lt ↦ cons k w (cons j u c)
  | Ordering.eq ↦ cons j w c
  | Ordering.gt ↦ cons j u (insert_child k w c)
]

-- Nothing is added for a child without an update.
unfoldable pub add_child : Update → Text → Option Update → Update
unfolding insert_child
add_child self k none = self
add_child (update c o n ks d) k (some child) =
    update c o n (some_keys (insert_child k child (children_of ks))) d

abbrev pub is_no_keys : Keys → Bool
is_no_keys no_keys = true
is_no_keys (some_keys c) = false

-- `delegated` is not looked at.
unfoldable pub is_noop : Update → Bool
is_noop (update c o n ks d) = not c && is_none o && is_none n && is_no_keys ks

-- How `merge` and `read` return an update.
abbrev pub unless_noop : Update → Option Update
unless_noop u = elim (is_noop u) [ true ↦ none | false ↦ some u ]
