-- ===== src/Client/Replies.antt =====
-- How many answers src/client.rs `process` sends, and how the client knows the last one.
use qumulus.Base.{
  ℕ, zero, suc, ◌+◌, ◌≤◌, ◌<◌, ◌≡◌, refl, ◌∙◌, Option, some, List, [], ◌∷◌, ◌++◌, length, arith,
  subst, take, drop, true,
}
use qumulus.Client.{Reply, absolute, serve, prepend, after_first, process}
use qumulus.Command.{Command, recursive}
use qumulus.Json
use qumulus.Manager.Registry
use qumulus.Manager.Registry.{Manager, ZoneHandle}
use qumulus.Manager.Registry.Placed.{IsPlaced, load-IsPlaced}
use qumulus.Node.Read.{DelegatedMatch}
use qumulus.Manager.Registry.Nearest.{find_nearest_longest}
use qumulus.TreePath
use qumulus.TreePath.{TreePath}
use qumulus.Zone.Data.{ZoneResult}

-- A list of answers after `left` have been announced: there are more exactly while some are left.
abbrev pub IsCounted : ℕ → List Reply → Type 0
IsCounted left [] = left ≡ 0
IsCounted left (r ∷ replies) = (0 < left) × IsCounted r.left replies

abbrev pub total : (DelegatedMatch → ℕ) → List DelegatedMatch → ℕ
total weight [] = 0
total weight (d ∷ queue) = weight d + total weight queue

total-append :
    (weight : DelegatedMatch → ℕ) (xs ys : List DelegatedMatch)
    → total weight (xs ++ ys) ≡ total weight xs + total weight ys
total-append weight [] ys = omega arith
total-append weight (d ∷ xs) ys = omega (arith, total-append weight xs ys)

-- A zone names only parts of itself that are smaller than what it was asked for, by some measure.
abbrev pub IsShrinking : (ℕ → ZoneHandle → Command → ZoneResult) → (DelegatedMatch → ℕ) → Type 0
IsShrinking answer weight =
    (step : ℕ) (zone : ZoneHandle) (c : Command)
    → total weight (absolute zone.path (answer step zone c).delegated)
      < weight (record { path = zone.path; match_spec = c.path })

-- The loop sends its answers, counted, and is done.
abbrev Answers : ℕ → Option (List Reply × Manager) → Type 0
Answers left o =
    (replies : List Reply) × (m : Manager) × (o ≡ some (replies, m)) × IsCounted left replies

prepend-Answers :
    (r : Reply) (left : ℕ) (o : Option (List Reply × Manager))
    → 0 < left
    → Answers r.left o
    → Answers left (prepend r o)
prepend-Answers r left o h a = (r ∷ a.0, a.1, rw a.2 refl, (h, a.3))

module _ (answer : ℕ → ZoneHandle → Command → ZoneResult) (weight : DelegatedMatch → ℕ)
    (shrinking : IsShrinking answer weight) where
  serve-Answers :
      (fuel step : ℕ) (m : Manager) (c : Command) (queue : List DelegatedMatch)
      → IsPlaced m.active
      → total weight queue ≤ fuel
      → Answers (length queue) (serve answer fuel step m c queue)
  unfolding serve
  serve-Answers fuel step m c [] h b = ([], m, refl, refl)
  serve-Answers zero step m c (d ∷ queue) h b =
      let one = shrinking step (record { path = d.path }) (record c { path = d.match_spec }) in
      absurd (omega arith)
  serve-Answers (suc fuel) step m c (d ∷ queue) h b =
      let loaded = Registry.load m d.path in
      let placed = load-IsPlaced m d.path h in
      let c' = record c { path = d.match_spec; params = Json.null } in
      let result = answer step loaded.0 c' in
      let more = absolute d.path result.delegated in
      let less : total weight more < weight d =
        subst
          (λ p.
            total weight (absolute p result.delegated)
            < weight (record { path = p; match_spec = d.match_spec }))
          placed.0 (shrinking step loaded.0 c') in
      prepend-Answers _ (suc (length queue)) _ (omega arith) (
        serve-Answers fuel (suc step) loaded.1 c (queue ++ more) placed.1
          (omega (arith, total-append weight queue more)))

  length-resolved : (p : TreePath) → length (TreePath.resolved p) ≤ length p
  unfolding TreePath.resolved
  length-resolved [] = omega arith
  length-resolved (k ∷ p) = ground (arith, length-resolved p)

  length-take : (n : ℕ) (p : TreePath) → length (take n p) ≤ length p
  length-take zero p = omega arith
  length-take (suc n) [] = omega arith
  length-take (suc n) (k ∷ p) = omega (arith, length-take n p)

  slice_within : (p : TreePath) (n : ℕ) → n ≤ length p → TreePath.slice p n ≡ some (drop n p)
  unfolding TreePath.slice
  slice_within p n h = ground arith

  process_found :
      (fuel : ℕ) (m : Manager) (command : Command) {prefix rest : TreePath} {zone : ZoneHandle}
      → let resolved = TreePath.resolved command.path in
        Registry.find_nearest (suc (length resolved)) m.active resolved ≡ some (prefix, zone)
        → TreePath.slice command.path (length prefix) ≡ some rest
        → process answer fuel m command
          ≡ after_first answer fuel m prefix (
              some (
                record command { path = rest; params = Json.null },
                answer 0 zone (record command { path = rest }),
              ))
  unfolding process
  process_found fuel m command e s = ground arith

  after_first-recursive :
      (fuel : ℕ) (m : Manager) (prefix : TreePath) (command : Command) (result : ZoneResult)
      {replies : List Reply} {m' : Manager}
      → recursive command ≡ true
      → serve answer fuel 1 m command (absolute prefix result.delegated) ≡ some (replies, m')
      → after_first answer fuel m prefix (some (command, result))
        ≡ some (
          record {
            id = command.id;
            left = length (absolute prefix result.delegated);
            path = prefix;
            update = result.update;
          }
              ∷ replies,
          m',
        )
  after_first-recursive fuel m prefix command result r e = ground arith

  recursive_call :
      (command : Command) (rest : TreePath)
      → recursive command ≡ true
      → recursive (record command { path = rest; params = Json.null }) ≡ true
  unfolding recursive
  recursive_call command rest r = r

  -- With an active root zone, every zone under its own path, and zones that name ever smaller
  -- parts, a read or a bind is answered: with enough steps `process` ends, without a panic, and
  -- every answer but the last announces that more are left, while the last announces none.
  pub process_answers :
      (m : Manager) (command : Command) {root : ZoneHandle}
      → IsPlaced m.active
      → Registry.get [] m.active ≡ some root
      → recursive command ≡ true
      → (fuel : ℕ) × (first : Reply) × (replies : List Reply) × (m' : Manager) × (process answer
            fuel m command
          ≡ some (first ∷ replies, m'))
        × IsCounted first.left replies
  process_answers m command {root} h active r =
      let resolved = TreePath.resolved command.path in
      let near = find_nearest_longest m.active resolved active in
      let prefix = take near.0 resolved in
      let short : length prefix ≤ length command.path =
        omega (arith, length-take near.0 resolved, length-resolved command.path) in
      let c = record command { path = drop (length prefix) command.path } in
      let queue = absolute prefix (answer 0 near.1 c).delegated in
      let rest =
        serve-Answers (total weight queue) 1 m (record c { params = Json.null }) queue h
          (omega arith) in
      let first : Reply = record {
        id = command.id;
        left = length queue;
        path = prefix;
        update = (answer 0 near.1 c).update;
      } in
      (
        total weight queue,
        first,
        rest.0,
        rest.1,
        process_found (total weight queue) m command near.2
              (slice_within command.path (length prefix) short)
            ∙ after_first-recursive (total weight queue) m prefix _ (answer 0 near.1 c)
                (recursive_call command (drop (length prefix) command.path) r) rest.2,
        rest.3,
      )
