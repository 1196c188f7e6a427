-- ===== src/Command/Request.antt =====
-- Which requests src/command.rs `from_json` accepts.
use qumulus.Base.{
  arith, ◌∙◌, ℕ, ◌≡◌, ◌↔◌, refl, ap, subst, ◌⊎◌, inl, inr, Option-cases, Option, some, [], ◌∷◌,
}
use qumulus.Command.{
  Call, bind, kill, read, write, Command, Result, ok, err, path_strings, call_named, from_value,
  from_json,
}
use qumulus.Json
use qumulus.Json.{Json}
use qumulus.Listener.{path_json}
use qumulus.Text.{Text, text, text_eq}
use qumulus.Text.Order.{eq_of_text_eq}
use qumulus.TreePath.{TreePath}

-- The names of the calls, as README.md shows them in requests.
abbrev pub name_of : Call → Text
name_of bind = text "bind"
name_of kill = text "kill"
name_of read = text "read"
name_of write = text "write"

call_named-name_of : (call : Call) → call_named (name_of call) ≡ ok call
unfolding call_named text_eq
call_named-name_of bind = refl
call_named-name_of kill = refl
call_named-name_of read = refl
call_named-name_of write = refl

name_of-call_named : (name : Text) (call : Call) → call_named name ≡ ok call → name ≡ name_of call
unfolding call_named
name_of-call_named name call h = ground (
  arith,
  eq_of_text_eq name (text "bind"),
  eq_of_text_eq name (text "kill"),
  eq_of_text_eq name (text "read"),
  eq_of_text_eq name (text "write"),
)

path_strings-path_json : (path : TreePath) → path_strings (path_json path) ≡ ok path
unfolding path_strings
path_strings-path_json [] = refl
path_strings-path_json (p ∷ path) = rw (path_strings-path_json path) refl

-- A request `[id, name, path, params]`, its path an array of strings and its name one of the four
-- calls, is read as that command, stamped with the time of the call.
pub from_json_request :
    (parse : Text → Option Json) (as_u64 : Json → Option ℕ) (json : Text) (id : Json) (n : ℕ)
    (name : Text) (call : Call) (path : TreePath) (params : Json) (now : ℕ)
    → parse json
      ≡ some (
          Json.array (
            Json.cons id (
              Json.cons
                (Json.string name)
                (Json.cons (Json.array (path_json path)) (Json.cons params Json.nil)))))
    → as_u64 id ≡ some n
    → call_named name ≡ ok call
    → from_json parse as_u64 json now
      ≡ ok (record { id = n; call = call; path = path; params = params; timestamp = now })
unfolding from_json
from_json_request parse as_u64 json id n name call path params now h i c =
    rw (h, i, path_strings-path_json path, c) refl

pub Result-cases : {A : Type 0} (r : Result A) → ((a : A) × (r ≡ ok a)) ⊎ ((e : Text) × (r ≡ err e))
Result-cases (ok a) = inl (a, refl)
Result-cases (err e) = inr (e, refl)

path_json-path_strings :
    (items : Json.Items) (path : TreePath) → path_strings items ≡ ok path → items ≡ path_json path
unfolding path_strings
path_json-path_strings Json.nil path h = let e : path ≡ [] = cc in rw e refl
path_json-path_strings (Json.cons (Json.string s) items) path h =
    elim (Result-cases (path_strings items)) [
      | inl (rest, e) ↦
          let whole : ok (s ∷ rest) ≡ ok path = rw (← h, e) refl in
          let p : path ≡ s ∷ rest = cc in rw (p, ← path_json-path_strings items rest e) refl
      | inr (message, e) ↦ let failed : err message ≡ ok path = rw (← h, e) refl in cc
    ]
path_json-path_strings (Json.cons _ items) path h = cc

-- The value is the request that `c` stands for.
abbrev pub IsRequest : (Json → Option ℕ) → Json → ℕ → Command → Type 0
IsRequest as_u64 whole now c =
    (id : Json) × (whole
      ≡ Json.array (
          Json.cons id (
            Json.cons (Json.string (name_of c.call))
              (Json.cons (Json.array (path_json c.path)) (Json.cons c.params Json.nil)))))
    × (as_u64 id ≡ some c.id)
    × (c.timestamp ≡ now)

read_request :
    (as_u64 : Json → Option ℕ) (whole : Json) (now : ℕ) (c : Command)
    → IsRequest as_u64 whole now c
    → from_value as_u64 whole now ≡ ok c
unfolding from_value
read_request as_u64 whole now c (id, e, i, t) =
    rw (e, i, path_strings-path_json c.path, call_named-name_of c.call, ← t) refl

-- The last four steps, from the parts of the request.
from_parts-IsRequest :
    (as_u64 : Json → Option ℕ) (id params : Json) (name : Text) (items : Json.Items) (now : ℕ)
    (c : Command)
    → let whole = Json.array (
        Json.cons id (
          Json.cons
            (Json.string name)
            (Json.cons (Json.array items) (Json.cons params Json.nil)))) in
      from_value as_u64 whole now ≡ ok c → IsRequest as_u64 whole now c
unfolding from_value
from_parts-IsRequest as_u64 id params name items now c h = elim (Option-cases (as_u64 id)) [
  | inl e ↦ let failed : err (text "Bad ID") ≡ ok c = rw (← h, e) refl in cc
  | inr (n, e) ↦ elim (Result-cases (path_strings items)) [
    | inr (message, f) ↦ let failed : err (message) ≡ ok c = rw (← h, e, f) refl in cc
    | inl (path, f) ↦ elim (Result-cases (call_named name)) [
      | inr (message, g) ↦ let failed : err (message) ≡ ok c = rw (← h, e, f, g) refl in cc
      | inl (call, g) ↦
          let made : Command = record {
            id = n;
            call = call;
            path = path;
            params = params;
            timestamp = now;
          } in
          let whole : ok made ≡ ok c = rw (← h, e, f, g) refl in
          let same : made ≡ c = cc in
          let strings = path_json-path_strings items path f in
          let named = name_of-call_named name call g in
          let written =
            ap
              (λ x. Json.array (
                Json.cons id (
                  Json.cons (Json.string name)
                    (Json.cons (Json.array x) (Json.cons params Json.nil)))))
              strings
            ∙ ap
                (λ x. Json.array (
                  Json.cons id (
                    Json.cons (Json.string x)
                      (Json.cons (Json.array (path_json path)) (Json.cons params Json.nil)))))
                named in
          subst (IsRequest as_u64 _ now) same (id, written, e, refl)
    ]
  ]
]

-- A name or a path of another type is refused.
four-IsRequest :
    (as_u64 : Json → Option ℕ) (id name path params : Json) (now : ℕ) (c : Command)
    → let whole =
        Json.array (Json.cons id (Json.cons name (Json.cons path (Json.cons params Json.nil)))) in
      from_value as_u64 whole now ≡ ok c → IsRequest as_u64 whole now c
unfolding from_value
four-IsRequest as_u64 id (Json.string name) (Json.array items) params now c h =
    from_parts-IsRequest as_u64 id params name items now c h
four-IsRequest as_u64 id (Json.string name) _ params now c h = absurd (ground arith)
four-IsRequest as_u64 id _ path params now c h = absurd (ground arith)

-- Any other value is refused.
from_value-IsRequest :
    (as_u64 : Json → Option ℕ) (whole : Json) (now : ℕ) (c : Command)
    → from_value as_u64 whole now ≡ ok c
    → IsRequest as_u64 whole now c
unfolding from_value
from_value-IsRequest as_u64
      (Json.array (Json.cons id (Json.cons name (Json.cons path (Json.cons params Json.nil))))) now
      c h =
    four-IsRequest as_u64 id name path params now c h
from_value-IsRequest as_u64 whole now c h = cc

-- A request is read exactly if it is JSON of the form `[id, name, path, params]`, where the id is a
-- `u64`, the path an array of strings and the name `bind`, `kill`, `read` or `write`: it gives the
-- command with this id, path and params and the call of this name, stamped with the time of the
-- call. Any other text is an error.
pub from_json_exact :
    (parse : Text → Option Json) (as_u64 : Json → Option ℕ) (json : Text) (now : ℕ) (c : Command)
    → (from_json parse as_u64 json now ≡ ok c)
      ↔ ((whole : Json) × (parse json ≡ some whole) × IsRequest as_u64 whole now c)
unfolding from_json
from_json_exact parse as_u64 json now c = (
  λ h. elim (Option-cases (parse json)) [
    | inl e ↦ let failed : err (text "Bad JSON") ≡ ok c = rw (← h, e) refl in cc
    | inr (whole, e) ↦
        let h' : from_value as_u64 whole now ≡ ok c = rw (← h, e) refl in
        (whole, e, from_value-IsRequest as_u64 whole now c h')
  ],
  λ (whole, e, r). rw e (read_request as_u64 whole now c r),
)
