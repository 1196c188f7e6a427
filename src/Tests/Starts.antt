-- ===== src/Tests/Starts.antt =====
-- src/main.rs on one command line.
use qumulus.Base.{true, ◌≡◌, refl, Option, none, some, List, [], ◌∷◌, arith}
use qumulus.Cluster.{Replica}
use qumulus.Startup.{returns, main, replicas_of, split_spaces, parse_all, usage}
use qumulus.Startup.Served.{main_serves, all_of}
use qumulus.Text.{Text, text}

-- One letter is a host at port 9000, and nothing else is an address.
abbrev parse : Text → Option Replica
parse (c ∷ []) = some (record { host = c; port = 9000 })
parse t = none

abbrev started_at : Replica
started_at = record { host = b'h'; port = 9000 }

abbrev two_replicas : List Replica
two_replicas = record { host = b'a'; port = 9000 } ∷ record { host = b'b'; port = 9000 } ∷ []

two_given : replicas_of parse (some (text "a b")) ≡ some two_replicas
unfolding replicas_of parse_all split_spaces
two_given = refl

main_serves_example :
    main parse true (some (text "a b")) (text "qumulus" ∷ text "h" ∷ [])
    ≡ returns (all_of started_at two_replicas)
main_serves_example =
    (main_serves parse true (some (text "a b")) (text "qumulus") (text "h")
        (all_of started_at two_replicas)).1
      (started_at, two_replicas, refl, refl, omega arith, two_given, refl)

-- An empty variable holds one part, which is not an address.
empty_variable : replicas_of parse (some (text "")) ≡ none
unfolding replicas_of parse_all split_spaces
empty_variable = refl

two_spaces : replicas_of parse (some (text "a  b")) ≡ none
unfolding replicas_of parse_all split_spaces
two_spaces = refl

no_id : main parse true none (text "qumulus" ∷ []) ≡ returns (usage ∷ [])
unfolding main
no_id = refl
