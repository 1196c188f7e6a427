-- ===== src/Listener.antt =====
-- src/listener.rs: a client's bind on a zone. A channel is named by a number.
use qumulus.Base.{ℕ, Bool, Option, none, some, [], ◌∷◌, if◌then◌else◌}
use qumulus.Json
use qumulus.Json.{Json, Items}
use qumulus.TreePath
use qumulus.TreePath.{TreePath}
use qumulus.Update.{Update}
use qumulus.Update.Reply.{filter}

pub record Listener : Type 0 where
  pub root : TreePath
  pub path : TreePath
  pub tx : ℕ

-- A relative listener, on its way to another zone.
pub record RListener : Type 0 where
  pub path : TreePath
  pub tx : ℕ

abbrev pub path_json : TreePath → Items
path_json [] = Json.nil
path_json (p ∷ path) = Json.cons (Json.string p) (path_json path)

-- The message `[0, null, root, update]`, unless the update has nothing for this listener.
unfoldable pub message : Listener → Update → Option Json
unfolding filter
message self u =
    let part = filter u self.path in
    if Json.is_null part
    then none
    else some (
        Json.array (
          Json.cons (Json.number (Json.of_u64 0)) (
            Json.cons Json.null
              (Json.cons (Json.array (path_json self.root)) (Json.cons part Json.nil)))))

-- Whether the listener is retained, and the listener for the delegated zone.
unfoldable pub delegate : Listener → TreePath → Bool × Option RListener
unfolding TreePath.delegate
delegate self d_path =
    let (retain, path) = TreePath.delegate self.path d_path in
    (retain, elim path [ none ↦ none | some p ↦ some (record { path = p; tx = self.tx }) ])

unfoldable pub to_absolute : RListener → TreePath → Listener
to_absolute self root = record { root = root; path = self.path; tx = self.tx }
