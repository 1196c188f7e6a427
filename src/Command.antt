-- ===== src/Command.antt =====
-- src/command.rs: a client's command.
pub mod Request
use qumulus.Base.{ℕ, Bool, true, false, Option, none, some, [], ◌∷◌, if◌then◌else◌}
use qumulus.Json
use qumulus.Json.{Json, Number, Items}
use qumulus.Text.{Text, text, text_eq}
use qumulus.TreePath.{TreePath}

pub data Call : Type 0 where
  bind kill read write : Call

pub record Command : Type 0 where
  pub id : ℕ
  pub call : Call
  pub path : TreePath
  pub params : Json
  pub timestamp : ℕ

pub data Result {ℓ} (A : Type ℓ) : Type ℓ where
  ok : A → Result A
  err : Text → Result A

infixl 5 ◌>>=◌
abbrev pub ◌>>=◌ {ℓ κ} : {A : Type ℓ} {B : Type κ} → Result A → (A → Result B) → Result B
ok a >>= f = f a
err e >>= f = err e

abbrev as_str : Json → Option Text
as_str (Json.string s) = some s
as_str _ = none

abbrev as_array : Json → Option Items
as_array (Json.array a) = some a
as_array _ = none

abbrev ok_or {ℓ} : {A : Type ℓ} → Option A → Text → Result A
ok_or none e = err e
ok_or (some a) e = ok a

abbrev four_items : Items → Option (Json × Json × Json × Json)
four_items (Json.cons a (Json.cons b (Json.cons c (Json.cons d Json.nil)))) = some (a, b, c, d)
four_items _ = none

unfoldable pub path_strings : Items → Result TreePath
path_strings Json.nil = ok []
path_strings (Json.cons p path) = do
  s ← ok_or (as_str p) (text "Bad path")
  rest ← path_strings path
  ok (s ∷ rest)

unfoldable pub call_named : Text → Result Call
call_named name =
    if text_eq name (text "bind")
    then ok bind
    else if text_eq name (text "kill")
    then ok kill
    else if text_eq name (text "read")
    then ok read
    else if text_eq name (text "write")
    then ok write
    else err (text "Bad call")

-- serde_json's `as_u64`, and the clock at the time of the call.
module _ (as_u64 : Json → Option ℕ) where
  -- The request as a JSON value.
  unfoldable pub from_value : Json → ℕ → Result Command
  unfolding path_strings call_named
  from_value whole now = do
    items ← ok_or (as_array whole) (text "Not array")
    parts ← ok_or (four_items items) (text "Wrong number of elements")
    id ← ok_or (as_u64 parts.0) (text "Bad ID")
    name ← ok_or (as_str parts.1) (text "Bad call")
    path ← ok_or (as_array parts.2) (text "Bad path")
    strings ← path_strings path
    call ← call_named name
    ok (record { id = id; call = call; path = strings; params = parts.3; timestamp = now })

-- serde_json's reader.
module _ (parse : Text → Option Json) (as_u64 : Json → Option ℕ) where
  unfoldable pub from_json : Text → ℕ → Result Command
  unfolding from_value
  from_json json now = do whole ← ok_or (parse json) (text "Bad JSON"); from_value as_u64 whole now

-- Delegated data requires separate calls.
unfoldable pub recursive : Command → Bool
recursive self = elim self.call [ bind ↦ true | read ↦ true | _ ↦ false ]
