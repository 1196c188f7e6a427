-- ===== src/Update/Shown.antt =====
-- How a client reads a message of src/node.rs, `Update::to_json` and `Update::filter`, at a path.
use qumulus.Base.{
  Bool, true, false, ◌||◌, ◌≡◌, refl, ap, ◌∙◌, inl, inr, Bool-cases, Option, none, some, [], ◌∷◌,
  if◌then◌else◌, is_some, is_empty, arith,
}
use qumulus.Json
use qumulus.Json.{Json}
use qumulus.Text.{Text, text_eq}
use qumulus.Text.Order.{eq_of_text_eq, text_eq_refl}
use qumulus.TreePath.{TreePath, star, star_star, star_hash}
use qumulus.Update.{Update, update, Keys, no_keys, some_keys, Children, nil, cons}
use qumulus.Update.Reply.{value_json, triple, is_delegated}

-- The field of an object.
abbrev pub field_of : Text → Json.Fields → Json
field_of k Json.end = Json.null
field_of k (Json.field j v fields) = if text_eq k j then v else field_of k fields

abbrev pub child_of : Text → Json → Json
child_of k
      (Json.array (Json.cons (Json.object fields) (Json.cons changed (Json.cons value Json.nil)))) =
    field_of k fields
child_of k _ = Json.null

-- What `[keys, changed, value]` says of the node itself: whether it exists now, and its value.
abbrev pub change_of : Json → Option (Bool × Json)
change_of (Json.array (Json.cons keys (Json.cons (Json.bool exists) (Json.cons value Json.nil)))) =
    some (exists, value)
change_of _ = none

-- How a client reads a message at a path.
abbrev pub shown : Json → TreePath → Option (Bool × Json)
shown j [] = change_of j
shown j (k ∷ q) = shown (child_of k j) q

abbrev pub find : Text → Children → Option Update
find k nil = none
find k (cons j u c) = if text_eq k j then some u else find k c

-- The change that an update holds at a path.
unfoldable mutual
  pub change_at : Update → TreePath → Option (Bool × Json)
  change_at (update c o n ks d) [] = if c then some (is_some n, value_json n) else none
  change_at (update c o n ks d) (k ∷ q) = change_below ks k q

  pub change_below : Keys → Text → TreePath → Option (Bool × Json)
  change_below no_keys k q = none
  change_below (some_keys c) k q = change_in c k q

  pub change_in : Children → Text → TreePath → Option (Bool × Json)
  change_in nil k q = none
  change_in (cons j u c) k q = if text_eq k j then change_at u q else change_in c k q

-- No part of the update is left to another zone, and the keys of a node differ.
abbrev mutual
  pub IsOwn : Update → Type 0
  IsOwn (update c o n ks d) = (is_delegated d ≡ false) × OwnKeys ks

  pub OwnKeys : Keys → Type 0
  OwnKeys no_keys = Unit
  OwnKeys (some_keys c) = OwnChildren c

  pub OwnChildren : Children → Type 0
  OwnChildren nil = Unit
  OwnChildren (cons k u c) = IsOwn u × (find k c ≡ none) × OwnChildren c

-- The paths that a listener asks for. Unlike in a read, `**` takes in the node itself.
unfoldable pub listens : TreePath → TreePath → Bool
listens [] q = is_empty q
listens (p ∷ spec) [] = text_eq p star_star || text_eq p star_hash
listens (p ∷ spec) (k ∷ q) =
    let next = listens spec q in
    if text_eq p star_star || text_eq p star_hash
    then true
    else if text_eq p star || text_eq p k
    then next
    else false

pub shown-null : (q : TreePath) → shown Json.null q ≡ none
shown-null [] = refl
shown-null (k ∷ q) = shown-null q

pub change_in-absent :
    (k : Text) (c : Children) (q : TreePath) → find k c ≡ none → change_in c k q ≡ none
unfolding change_at
change_in-absent k nil q h = refl
change_in-absent k (cons j u c) q h = ground (arith, change_in-absent k c q)

pub field-shown :
    (k j : Text) (v : Json) (fields : Json.Fields) (q : TreePath) (a b : Option (Bool × Json))
    → shown v q ≡ a
    → shown (field_of k fields) q ≡ b
    → shown (field_of k (Json.field j v fields)) q ≡ (if text_eq k j then a else b)
field-shown k j v fields q a b e f = ground arith

pub null_of : (v : Json) → Json.is_null v ≡ true → v ≡ Json.null
null_of v h = ground arith

-- A field without a change may be left out, if no other field has its name.
pub kept_field-shown :
    (k j : Text) (v : Json) (fields : Json.Fields) (q : TreePath) (l : Bool)
    (a b : Option (Bool × Json))
    → shown v q ≡ (if l then a else none)
    → shown (field_of k fields) q ≡ (if l then b else none)
    → (text_eq k j ≡ true → b ≡ none)
    → shown (field_of k (if Json.is_null v then fields else Json.field j v fields)) q
      ≡ (if l then (if text_eq k j then a else b) else none)
kept_field-shown k j v fields q l a b e f g = elim (Bool-cases (Json.is_null v)) [
  | inl gone ↦ rw gone (ground (arith, f, g, e, ap (λ x. shown x q) (null_of v gone), shown-null q))
  | inr stays ↦ rw stays (ground (arith, e, f))
]

named_field-shown :
    (p k j : Text) (v : Json) (q : TreePath) (l : Bool) (a b : Option (Bool × Json))
    → shown v q ≡ (if l then a else none)
    → text_eq p j ≡ true
    → shown
        (child_of k (
          if Json.is_null v
          then Json.null
          else triple (Json.object (Json.field p v Json.end)) Json.null Json.null))
        q
      ≡ (if text_eq p k then (if l then (if text_eq k j then a else b) else none) else none)
named_field-shown p k j v q l a b e here = elim (Bool-cases (Json.is_null v)) [
  | inl gone ↦ rw gone (
      ground (
        arith,
        e,
        eq_of_text_eq p k,
        eq_of_text_eq p j here,
        text_eq_refl j,
        ap (λ x. shown x q) (null_of v gone),
        shown-null q,
      ))
  | inr stays ↦ rw stays (
      ground (
        arith,
        e,
        eq_of_text_eq p k,
        eq_of_text_eq k p,
        eq_of_text_eq p j here,
        text_eq_refl j,
        text_eq_refl k,
        shown-null q,
      ))
]

-- The one field that a listener names.
pub one_field-shown :
    (p k j : Text) (v other : Json) (q : TreePath) (l : Bool) (a b : Option (Bool × Json))
    → shown v q ≡ (if l then a else none)
    → shown other (k ∷ q) ≡ (if text_eq p k then (if l then b else none) else none)
    → shown
        (if text_eq p j
          then (if Json.is_null v
              then Json.null
              else triple (Json.object (Json.field p v Json.end)) Json.null Json.null)
          else other)
        (k ∷ q)
      ≡ (if text_eq p k then (if l then (if text_eq k j then a else b) else none) else none)
one_field-shown p k j v other q l a b e f = elim (Bool-cases (text_eq p j)) [
  | inl here ↦ rw here (named_field-shown p k j v q l a b e here)
  | inr elsewhere ↦ rw elsewhere (f ∙ ground (arith, eq_of_text_eq p k))
]

pub listens_all :
    (p : Text) (spec q : TreePath)
    → (text_eq p star_star || text_eq p star_hash) ≡ true
    → listens (p ∷ spec) q ≡ true
unfolding listens
listens_all p spec [] h = h
listens_all p spec (k ∷ q) h = rw h refl

pub listens_named :
    (p : Text) (spec : TreePath) (k : Text) (q : TreePath)
    → (text_eq p star_star || text_eq p star_hash) ≡ false
    → listens (p ∷ spec) (k ∷ q) ≡ (if text_eq p star || text_eq p k then listens spec q else false)
unfolding listens
listens_named p spec k q h = rw h refl
