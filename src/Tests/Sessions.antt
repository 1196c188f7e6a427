-- ===== src/Tests/Sessions.antt =====
-- A client that sends one request, and a worker that answers it.
use qumulus.Base.{ℕ, map, ◌≡◌, refl, true, none, some, List, [], ◌∷◌, ◌++◌, arith}
use qumulus.Client.{Reply, process}
use qumulus.Client.Session.{
  Session, Event, queued, taken, answered, silent, Runs, opened, hello, put, written, send, reads,
  takes, answers, writes, next, done, write_line,
}
use qumulus.Client.Session.Events.{commands_queued, commands_taken, lines_due}
use qumulus.Client.Session.Ordered.{answers_in_order, lines_left, SentLine, lines_of, text_of}
use qumulus.Client.Session.Stream.{stream_in_order, unlines, messages, Sends}
use qumulus.Command.{Command}
use qumulus.Json.{Json}
use qumulus.Manager.Registry
use qumulus.Manager.Registry.{Manager, ZoneHandle}
use qumulus.Tests.Calls.{parse_request, id_of, command, reads_request}
use qumulus.Text.{Text, text}
use qumulus.Zone.Data.{ZoneResult, no_result}

abbrev no_answer : ℕ → ZoneHandle → Command → ZoneResult
no_answer step zone c = no_result

abbrev root_only : Manager
root_only = record { active = ([], record { path = [] }) ∷ []; loaded = 0; requesting_load = [] }

abbrev reply : Reply
reply = record { id = command.id; left = 0; path = []; update = none }

root_answers : process no_answer 0 root_only command ≡ some (reply ∷ [], root_only)
unfolding process Registry.path_cmp
root_answers = refl

-- What a printer makes of the answer.
abbrev print : Json → Text
print answer = text "[]"

abbrev events : List Event
events = queued command ∷ taken 0 command (text "[]" ∷ []) ∷ answered 0 (text "[]") ∷ silent ∷ []

abbrev asked : Session
asked = record opened { commands = command ∷ [] }

abbrev working : Session
working = record opened { workers = put 0 (some (text "[]" ∷ [])) opened.workers }

abbrev replied : Session
replied = send (text "[]") (record working { workers = put 0 (some []) working.workers })

abbrev greeted : Session
greeted = write_line written hello (record replied { channel = text "[]" ∷ [] })

one_request : Runs parse_request id_of print opened events greeted
unfolding send
one_request = next (reads (text "[") 12 command refl reads_request) (
    next
      (takes 0 command [] no_answer 0 root_only root_only (reply ∷ []) (omega arith) refl refl
        root_answers)
      (next (answers 0 (text "[]") [] refl)
        (next (writes hello (text "[]" ∷ []) written refl refl) done)))

answers_in_order_example :
    (commands_taken events ++ greeted.commands ≡ commands_queued events)
    × ((sent : List SentLine) × ((v : ℕ)
          → lines_of v sent ++ lines_left v greeted ≡ lines_due v events)
        × Sends greeted (unlines (hello ∷ map text_of sent)))
answers_in_order_example = answers_in_order parse_request id_of print one_request

stream_in_order_example :
    let whole = unlines (hello ∷ messages events) in
    ((rest : Text) × (greeted.stream ++ rest ≡ whole))
    × (greeted.writing ≡ true → greeted.stream ++ unlines greeted.channel ≡ whole)
stream_in_order_example = stream_in_order parse_request id_of print one_request
