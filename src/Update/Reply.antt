-- ===== src/Update/Reply.antt =====
-- src/node.rs, `Update::to_json` and `Update::filter`: what a client is sent.
use qumulus.Base.{
  ◌%◌, leb, Bool, true, false, ◌||◌, Option, none, some, [], ◌∷◌, if◌then◌else◌, is_some,
}
use qumulus.Json
use qumulus.Json.{Json}
use qumulus.Text.{Text, text_eq}
use qumulus.TreePath.{TreePath, star, star_star, star_hash}
use qumulus.Update.{Update, update, Keys, no_keys, some_keys, Children, nil, cons}
use qumulus.Value
use qumulus.Value.{Value}

-- The value of an update; a removed value reads as null, and so does a float that is not finite,
-- for which serde_json has no number.
unfoldable pub value_json : Option Value → Json
value_json none = Json.null
value_json (some Value.null) = Json.null
value_json (some (Value.bool v)) = Json.bool v
value_json (some (Value.i64 v)) = Json.number (Json.of_i64 v)
value_json (some (Value.u64 v)) = Json.number (Json.of_u64 v)
value_json (some (Value.f64 v)) =
    if leb Value.infinity (v % Value.sign_bit) then Json.null else Json.number (Json.of_f64 v)
value_json (some (Value.string s)) = Json.string s

abbrev pub triple : Json → Json → Json → Json
triple keys changed value =
    Json.array (Json.cons keys (Json.cons changed (Json.cons value Json.nil)))

abbrev pub is_delegated : Option Bool → Bool
is_delegated (some true) = true
is_delegated _ = false

-- `[keys, changed, value]`; a delegated child is left to its own zone.
unfoldable mutual
  pub to_json : Update → Json
  to_json (update c o n ks d) =
      triple (keys_json ks) (if c then Json.bool (is_some n) else Json.null) (value_json n)

  pub keys_json : Keys → Json
  keys_json no_keys = Json.null
  keys_json (some_keys c) = Json.object (children_json c)

  pub children_json : Children → Json.Fields
  children_json nil = Json.end
  children_json (cons k (update c o n ks d) rest) =
      if is_delegated d
      then children_json rest
      else Json.field k (to_json (update c o n ks d)) (children_json rest)

-- The part of the update that a listener at `path` asked for; `Json.null` when nothing matches.
unfoldable mutual
  unfolding to_json

  pub filter : Update → TreePath → Json
  filter (update c o n ks d) [] =
      if c then triple Json.null (Json.bool (is_some n)) (value_json n) else Json.null
  filter (update c o n ks d) (p ∷ path) =
      if text_eq p star_star || text_eq p star_hash
      then to_json (update c o n ks d)
      else if text_eq p star
      then filter_all ks path
      else filter_one p ks path

  pub filter_all : Keys → TreePath → Json
  filter_all no_keys path = Json.null
  filter_all (some_keys c) path = triple (Json.object (filter_children c path)) Json.null Json.null

  pub filter_children : Children → TreePath → Json.Fields
  filter_children nil path = Json.end
  filter_children (cons k (update c o n ks d) rest) path =
      let v = filter (update c o n ks d) path in
      if is_delegated d || Json.is_null v
      then filter_children rest path
      else Json.field k v (filter_children rest path)

  pub filter_one : Text → Keys → TreePath → Json
  filter_one part no_keys path = Json.null
  filter_one part (some_keys c) path = filter_get part c path

  pub filter_get : Text → Children → TreePath → Json
  filter_get part nil path = Json.null
  filter_get part (cons k u rest) path =
      let v = filter u path in
      if text_eq part k
      then (if Json.is_null v
          then Json.null
          else triple (Json.object (Json.field part v Json.end)) Json.null Json.null)
      else filter_get part rest path
