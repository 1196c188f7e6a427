-- ===== src/Client.antt =====
-- src/client.rs, `process`: a command is sent to the nearest zone, and a read or a bind then to
-- every zone that the answers name.
pub mod Replies
pub mod Lines
pub mod Session
use qumulus.Base.{ℕ, zero, suc, Option, none, some, List, [], ◌∷◌, ◌++◌, length, if◌then◌else◌}
use qumulus.Command.{Command, recursive}
use qumulus.Json
use qumulus.Json.{Json, Items}
use qumulus.Listener.{path_json}
use qumulus.Manager.Registry
use qumulus.Manager.Registry.{Manager, ZoneHandle}
use qumulus.Node.Read.{DelegatedMatch}
use qumulus.TreePath
use qumulus.TreePath.{TreePath}
use qumulus.Update.{Update}
use qumulus.Update.Reply.{to_json}
use qumulus.Zone.Data.{ZoneResult}

-- One answer to the client: `left` is the number of answers that are still to come.
pub record Reply : Type 0 where
  pub id : ℕ
  pub left : ℕ
  pub path : TreePath
  pub update : Option Update

abbrev update_json : Option Update → Json
update_json none = Json.null
update_json (some u) = to_json u

-- The line that is sent.
abbrev pub reply_json : Reply → Json
reply_json r = Json.array (
    Json.cons (Json.number (Json.of_u64 r.id)) (
      Json.cons (Json.number (Json.of_u64 r.left))
        (Json.cons (Json.array (path_json r.path)) (Json.cons (update_json r.update) Json.nil))))

-- Relative matches of the zone at `prefix`, made absolute.
abbrev pub absolute : TreePath → List DelegatedMatch → List DelegatedMatch
absolute prefix [] = []
absolute prefix (d ∷ delegated) =
    record { path = prefix ++ d.path; match_spec = d.match_spec } ∷ absolute prefix delegated

abbrev pub prepend : Reply → Option (List Reply × Manager) → Option (List Reply × Manager)
prepend r none = none
prepend r (some (replies, m)) = some (r ∷ replies, m)

-- What a zone answers may differ from one dispatch to the next, which are numbered.
module _ (answer : ℕ → ZoneHandle → Command → ZoneResult) where
  -- The loop over the delegated matches; `none` means that the fuel ran out.
  unfoldable pub serve :
      ℕ → ℕ → Manager → Command → List DelegatedMatch → Option (List Reply × Manager)
  serve fuel step m command [] = some ([], m)
  serve zero step m command (delegated ∷ queue) = none
  serve (suc fuel) step m command (delegated ∷ queue) =
      let (zone, m', sent) = Registry.load m delegated.path in
      let c = record command { path = delegated.match_spec; params = Json.null } in
      let result = answer step zone c in
      let queue' = queue ++ absolute delegated.path result.delegated in
      let r : Reply = record {
        id = command.id;
        left = length queue';
        path = delegated.path;
        update = result.update;
      } in
      prepend r (serve fuel (suc step) m' command queue')

  -- The first dispatch, to the zone at `prefix`.
  abbrev pub first_dispatch : TreePath → ZoneHandle → Command → Option (Command × ZoneResult)
  first_dispatch prefix zone command = elim (TreePath.slice command.path (length prefix)) [
    | none ↦ none
    | some rest ↦
        let c = record command { path = rest } in
        some (record c { params = Json.null }, answer 0 zone c)
  ]

  abbrev pub after_first :
      ℕ → Manager → TreePath → Option (Command × ZoneResult) → Option (List Reply × Manager)
  after_first fuel m prefix none = none
  after_first fuel m prefix (some (command, result)) =
      let queue = absolute prefix result.delegated in
      let r : Reply = record {
        id = command.id;
        left = length queue;
        path = prefix;
        update = result.update;
      } in
      prepend r (if recursive command then serve fuel 1 m command queue else some ([], m))

  -- `none` is also the panic of `slice`, and a search for a zone that does not end.
  unfoldable pub process : ℕ → Manager → Command → Option (List Reply × Manager)
  unfolding serve Registry.load Registry.find_nearest TreePath.resolved TreePath.slice recursive
  process fuel m command =
      let resolved = TreePath.resolved command.path in
      elim (Registry.find_nearest (suc (length resolved)) m.active resolved) [
        | none ↦ none
        | some (prefix, zone) ↦ after_first fuel m prefix (first_dispatch prefix zone command)
      ]
