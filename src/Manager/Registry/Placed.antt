-- ===== src/Manager/Registry/Placed.antt =====
-- Every zone of the registry stands under its own path.
use qumulus.Base.{◌≡◌, refl, some, none, inl, inr, Option-cases, [], ◌∷◌, arith}
use qumulus.Manager.Registry.{
  Manager, ZoneHandle, Active, get, insert, load, spawn_zone, local_active_increment,
}
use qumulus.Manager.Registry.Lookup.{eq_of_path_cmp}
use qumulus.TreePath.{TreePath}

abbrev pub IsPlaced : Active → Type 0
IsPlaced [] = Unit
IsPlaced ((p, z) ∷ active) = (z.path ≡ p) × IsPlaced active

pub get-IsPlaced :
    (p : TreePath) (active : Active) {z : ZoneHandle}
    → IsPlaced active
    → get p active ≡ some z
    → z.path ≡ p
unfolding get
get-IsPlaced p [] h e = cc
get-IsPlaced p ((q, y) ∷ active) {z} h e =
    ground (arith, get-IsPlaced p active {z = z} h.1, eq_of_path_cmp p q)

insert-IsPlaced :
    (p : TreePath) (z : ZoneHandle) (active : Active)
    → z.path ≡ p
    → IsPlaced active
    → IsPlaced (insert p z active)
unfolding insert
insert-IsPlaced p z [] e h = (e, tt)
insert-IsPlaced p z ((q, y) ∷ active) e h =
    ground (arith, insert-IsPlaced p z active e h.1, eq_of_path_cmp p q)

load_active :
    (m : Manager) (p : TreePath) {z : ZoneHandle} → get p m.active ≡ some z → load m p ≡ (z, m, [])
unfolding load
load_active m p e = ground arith

load_absent :
    (m : Manager) (p : TreePath)
    → get p m.active ≡ none
    → load m p ≡ (
      record { path = p },
      record m { active = insert p (record { path = p }) m.active },
      spawn_zone p ∷ local_active_increment ∷ [],
    )
unfolding load
load_absent m p e = ground arith

-- Loading a path returns the zone of that path, and keeps every zone under its own path.
pub load-IsPlaced :
    (m : Manager) (p : TreePath)
    → IsPlaced m.active
    → ((load m p).0.path ≡ p) × IsPlaced (load m p).1.active
load-IsPlaced m p h = elim (Option-cases (get p m.active)) [
  | inl e ↦
      let placed = insert-IsPlaced p (record { path = p }) m.active refl h in
      (rw (load_absent m p e) refl, rw (load_absent m p e) placed)
  | inr (z, e) ↦ (rw (load_active m p e) (get-IsPlaced p m.active h e), rw (load_active m p e) h)
]
