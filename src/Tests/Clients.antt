-- ===== src/Tests/Clients.antt =====
-- A client's read that the root zone passes on to one other zone.
use qumulus.Base.{ℕ, ◌<◌, ◌≡◌, refl, some, none, List, [], ◌∷◌, arith}
use qumulus.Client.{Reply, absolute, process, serve}
use qumulus.Client.Replies.{IsShrinking, IsCounted, total, process_answers}
use qumulus.Command
use qumulus.Command.{Command}
use qumulus.Json
use qumulus.Manager.Registry
use qumulus.Manager.Registry.{Manager, ZoneHandle}
use qumulus.Node.Read.{DelegatedMatch}
use qumulus.Text.{text}
use qumulus.TreePath.{TreePath, star_hash}
use qumulus.Zone.Data.{ZoneResult, no_result}

abbrev cow : TreePath
cow = text "cow" ∷ []

-- The root zone has delegated `cow`.
abbrev answer_at : TreePath → ZoneResult
answer_at [] = record {
  update = none;
  delegated = record { path = cow; match_spec = star_hash ∷ [] } ∷ [];
}
answer_at (k ∷ path) = no_result

abbrev answer : ℕ → ZoneHandle → Command → ZoneResult
answer step zone c = answer_at zone.path

abbrev depth : TreePath → ℕ
depth [] = 2
depth (k ∷ path) = 1

abbrev weight : DelegatedMatch → ℕ
weight d = depth d.path

shrinks_at :
    (path : TreePath) → total weight (absolute path (answer_at path).delegated) < depth path
shrinks_at [] = omega arith
shrinks_at (k ∷ path) = omega arith

answer-IsShrinking : IsShrinking answer weight
answer-IsShrinking step zone c = shrinks_at zone.path

abbrev started : Manager
started = record { active = ([], record { path = [] }) ∷ []; loaded = 0; requesting_load = [] }

abbrev command : Command
command = record {
  id = 4;
  call = Command.read;
  path = text "cow" ∷ star_hash ∷ [];
  params = Json.null;
  timestamp = 9;
}

process_answers_example :
    (fuel : ℕ) × (first : Reply) × (replies : List Reply) × (m' : Manager) × (process answer fuel
        started command
      ≡ some (first ∷ replies, m'))
    × IsCounted first.left replies
unfolding Registry.get Command.recursive Registry.path_cmp
process_answers_example =
    process_answers answer weight answer-IsShrinking started command {root = record { path = [] }}
      (refl, tt) refl refl

-- Both answers, the first of which announces the second.
two_replies :
    serve answer 1 1 started command (record { path = cow; match_spec = star_hash ∷ [] } ∷ [])
    ≡ some (
      record { id = 4; left = 0; path = cow; update = none } ∷ [],
      record started { active = ([], record { path = [] }) ∷ (cow, record { path = cow }) ∷ [] },
    )
unfolding serve Registry.load Registry.get Registry.insert Registry.path_cmp
two_replies = refl
