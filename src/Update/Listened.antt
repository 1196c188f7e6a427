-- ===== src/Update/Listened.antt =====
-- What a listener of src/node.rs `Update::filter` is sent: the changes at the paths that it asked for.
use qumulus.Base.{
  Bool, true, false, ◌||◌, ◌≡◌, refl, sym, ap, ◌∙◌, inl, inr, Bool-cases, Option, none, [], ◌∷◌,
  if◌then◌else◌, arith,
}
use qumulus.Json.{Json}
use qumulus.Text.{Text, text_eq}
use qumulus.Text.Order.{eq_of_text_eq}
use qumulus.Value.{Value}
use qumulus.TreePath.{TreePath, star, star_star, star_hash}
use qumulus.Update.{Update, update, Keys, no_keys, some_keys, Children, nil, cons}
use qumulus.Update.Reply.{
  to_json, children_json, filter, filter_all, filter_children, filter_one, filter_get,
}
use qumulus.Update.Shown.{
  field_of, child_of, change_of, shown, change_at, change_in, IsOwn, OwnKeys, OwnChildren, listens,
  shown-null, change_in-absent, field-shown, kept_field-shown, one_field-shown, listens_all,
  listens_named,
}

mutual
  unfolding to_json change_at

  to_json-shown : (u : Update) (q : TreePath) → IsOwn u → shown (to_json u) q ≡ change_at u q
  to_json-shown (update c o n ks d) [] h = ground arith
  to_json-shown (update c o n no_keys d) (k ∷ q) h = shown-null q
  to_json-shown (update c o n (some_keys cs) d) (k ∷ q) h = children_json-shown cs k q h.1

  children_json-shown :
      (c : Children) (k : Text) (q : TreePath)
      → OwnChildren c
      → shown (field_of k (children_json c)) q ≡ change_in c k q
  children_json-shown nil k q h = shown-null q
  children_json-shown (cons j (update c o n ks d) rest) k q h = rw h.0.0 (
      field-shown k j _ (children_json rest) q _ _ (to_json-shown (update c o n ks d) q h.0)
        (children_json-shown rest k q h.2))

either_null : (b : Bool) → (if b then Json.null else Json.null) ≡ Json.null
either_null true = refl
either_null false = refl

none_either : (b : Bool) → ◌≡◌ {A = Option (Bool × Json)} (if b then none else none) none
none_either true = refl
none_either false = refl

if_then_if :
    (a b : Bool) (x : Option (Bool × Json))
    → (if a then (if b then x else none) else none) ≡ (if (if a then b else false) then x else none)
if_then_if true b x = refl
if_then_if false b x = refl

no_change_of_one :
    (p : Text) (c : Children) (spec : TreePath) → change_of (filter_get p c spec) ≡ none
unfolding filter
no_change_of_one p nil spec = refl
no_change_of_one p (cons j u rest) spec = ground (arith, no_change_of_one p rest spec)

no_change_of :
    (all : Bool) (ks : Keys) (p : Text) (spec : TreePath)
    → change_of (if all then filter_all ks spec else filter_one p ks spec) ≡ none
unfolding filter
no_change_of true no_keys p spec = refl
no_change_of true (some_keys c) p spec = refl
no_change_of false no_keys p spec = refl
no_change_of false (some_keys c) p spec = no_change_of_one p c spec

mutual
  unfolding filter listens change_at

  filter-shown :
      (u : Update) (spec q : TreePath)
      → IsOwn u
      → shown (filter u spec) q ≡ (if listens spec q then change_at u q else none)
  filter-shown (update true o n ks d) [] [] h = refl
  filter-shown (update false o n ks d) [] [] h = refl
  filter-shown (update true o n ks d) [] (k ∷ q) h = shown-null q
  filter-shown (update false o n ks d) [] (k ∷ q) h = shown-null q
  filter-shown (update c o n ks d) (p ∷ spec) q h =
      elim (Bool-cases (text_eq p star_star || text_eq p star_hash)) [
        | inl all ↦ rw (all, listens_all p spec q all) (to_json-shown (update c o n ks d) q h)
        | inr named ↦ rw named (filter_keys-shown c o n d p ks spec q named h.1)
      ]

  filter_keys-shown :
      (c : Bool) (o n : Option Value) (d : Option Bool) (p : Text) (ks : Keys) (spec q : TreePath)
      → (text_eq p star_star || text_eq p star_hash) ≡ false
      → OwnKeys ks
      → shown (if text_eq p star then filter_all ks spec else filter_one p ks spec) q
        ≡ (if listens (p ∷ spec) q then change_at (update c o n ks d) q else none)
  filter_keys-shown c o n d p ks spec [] w h = rw w (no_change_of (text_eq p star) ks p spec)
  filter_keys-shown c o n d p no_keys spec (k ∷ q) w h =
      ap (λ x. shown (child_of k x) q) (either_null (text_eq p star))
      ∙ shown-null q
      ∙ sym (none_either (listens (p ∷ spec) (k ∷ q)))
  filter_keys-shown c o n d p (some_keys cs) spec (k ∷ q) w h =
      rw (listens_named p spec k q w) (elim (Bool-cases (text_eq p star)) [
        | inl all ↦ rw all (filter_children-shown cs spec k q h)
        | inr one ↦ rw one (
            filter_get-shown p cs spec k q h
            ∙ if_then_if (text_eq p k) (listens spec q) (change_in cs k q))
      ])

  filter_children-shown :
      (c : Children) (spec : TreePath) (k : Text) (q : TreePath)
      → OwnChildren c
      → shown (field_of k (filter_children c spec)) q
        ≡ (if listens spec q then change_in c k q else none)
  filter_children-shown nil spec k q h = shown-null q ∙ sym (none_either (listens spec q))
  filter_children-shown (cons j (update c o n ks d) rest) spec k q h = rw h.0.0 (
      kept_field-shown k j (filter (update c o n ks d) spec) (filter_children rest spec) q
        (listens spec q) (change_at (update c o n ks d) q) (change_in rest k q)
        (filter-shown (update c o n ks d) spec q h.0) (filter_children-shown rest spec k q h.2)
        (λ e. change_in-absent k rest q (rw (eq_of_text_eq k j e) h.1)))

  filter_get-shown :
      (p : Text) (c : Children) (spec : TreePath) (k : Text) (q : TreePath)
      → OwnChildren c
      → shown (filter_get p c spec) (k ∷ q)
        ≡ (if text_eq p k then (if listens spec q then change_in c k q else none) else none)
  filter_get-shown p nil spec k q h = shown-null q ∙ ground arith
  filter_get-shown p (cons j u rest) spec k q h =
      one_field-shown p k j (filter u spec) (filter_get p rest spec) q (listens spec q)
        (change_at u q) (change_in rest k q) (filter-shown u spec q h.0)
        (filter_get-shown p rest spec k q h.2)

-- What a listener is sent holds at every path exactly the change there, if the listener asked for
-- the path, and nothing otherwise. No part of the update is left to another zone, and the keys of
-- each node differ.
pub filter_exact :
    (u : Update) (spec q : TreePath)
    → IsOwn u
    → shown (filter u spec) q ≡ (if listens spec q then change_at u q else none)
filter_exact u spec q h = filter-shown u spec q h
