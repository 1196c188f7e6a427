-- ===== src/Client/Session.antt =====
-- src/client.rs, one connected client: the loop that reads its lines, the workers that process its
-- commands side by side, and the writer, all joined by channels.
pub mod Events
pub mod Ordered
pub mod Stream
use qumulus.Base.{
  ℕ, ◌<◌, ◌≡◌, ◌==◌, Bool, true, false, Option, none, some, List, [], ◌∷◌, ◌++◌, map, take,
  if◌then◌else◌,
}
use qumulus.Client.{Reply, reply_json, process}
use qumulus.Client.Lines.{quote, error_line}
use qumulus.Command.{Command, ok, err, from_json}
use qumulus.Json.{Json}
use qumulus.Manager.Registry.{Manager, ZoneHandle}
use qumulus.Text.{Text, text}
use qumulus.Zone.Data.{ZoneResult}

-- `{ "hello!": 1 }` and `{ "ping": 1 }`.
abbrev pub hello : Text
hello = text "{ " ++ quote ++ text "hello!" ++ quote ++ text ": 1 }"

abbrev pub ping : Text
ping = text "{ " ++ quote ++ text "ping" ++ quote ++ text ": 1 }"

abbrev pub num_workers : ℕ
num_workers = 1000

-- A worker waits for a command, or still has these lines of its command to send. `channel` is
-- what was sent and not yet written; `stream` are the bytes that were written.
pub record Session : Type 0 where
  pub commands : List Command
  pub workers : ℕ → Option (List Text)
  pub channel : List Text
  pub stream : Text
  pub reading : Bool
  pub writing : Bool

abbrev pub put : ℕ → Option (List Text) → (ℕ → Option (List Text)) → ℕ → Option (List Text)
put w job workers v = if v == w then job else workers v

-- `handle_stream` begins: the greeting is sent, and all workers wait.
abbrev pub opened : Session
opened = record {
  commands = [];
  workers = λ w. none;
  channel = hello ∷ [];
  stream = [];
  reading = true;
  writing = true;
}

-- `tx.send`: once the writer has returned, the channel has no receiver and the line is lost.
unfoldable pub send : Text → Session → Session
send t s = if s.writing then record s { channel = s.channel ++ t ∷ [] } else s

-- The read loop unwraps the result of its send, so it panics where the others go on.
unfoldable pub answer_error : Text → Session → Session
unfolding send
answer_error e s = if s.writing then send (error_line e) s else record s { reading = false }

abbrev pub newline : Text
newline = b'\n' ∷ []

-- What the socket makes of a line: all of it, or an error after some bytes.
pub data Outcome : Type 0 where
  written : Outcome
  fails_after : ℕ → Outcome

-- One round of the writer's loop, for the first line of the channel.
unfoldable pub write_line : Outcome → Text → Session → Session
write_line written t s = record s { stream = s.stream ++ (t ++ newline) }
write_line (fails_after n) t s = record s {
  stream = s.stream ++ take n (t ++ newline);
  writing = false;
  channel = [];
}

-- What a step shows: a command is queued, a worker takes it and has these lines to send, a worker
-- sends one, and any other part of the program sends one.
pub data Event : Type 0 where
  queued : Command → Event
  taken : ℕ → Command → List Text → Event
  answered : ℕ → Text → Event
  announced : Text → Event
  silent : Event

-- serde_json's reader and printer.
module _ (parse : Text → Option Json) (as_u64 : Json → Option ℕ) (print : Json → Text) where
  abbrev pub lines : List Reply → List Text
  lines replies = map (λ r. print (reply_json r)) replies

  pub data Step (s : Session) : Event → Session → Type 0 where
    reads :
        (t : Text) (now : ℕ) (c : Command)
        → s.reading ≡ true
        → from_json parse as_u64 t now ≡ ok c
        → Step s (queued c) (record s { commands = s.commands ++ c ∷ [] })
    rejects :
        (t : Text) (now : ℕ) (e : Text)
        → s.reading ≡ true
        → from_json parse as_u64 t now ≡ err e
        → Step s (announced (error_line e)) (answer_error e s)
    hangs_up : s.reading ≡ true → Step s silent (record s { reading = false })
    takes :
        (w : ℕ) (c : Command) (rest : List Command) (answer : ℕ → ZoneHandle → Command → ZoneResult)
        (fuel : ℕ) (m m' : Manager) (replies : List Reply)
        → w < num_workers
        → s.workers w ≡ none
        → s.commands ≡ c ∷ rest
        → process answer fuel m c ≡ some (replies, m')
        → Step s
            (taken w c (lines replies))
            (record s { commands = rest; workers = put w (some (lines replies)) s.workers })
    answers :
        (w : ℕ) (t : Text) (rest : List Text)
        → s.workers w ≡ some (t ∷ rest)
        → Step s (answered w t) (send t (record s { workers = put w (some rest) s.workers }))
    finishes :
        (w : ℕ)
        → s.workers w ≡ some []
        → Step s silent (record s { workers = put w none s.workers })
    pings : Step s (announced ping) (send ping s)
    notifies : (t : Text) → Step s (announced t) (send t s)
    writes :
        (t : Text) (rest : List Text) (outcome : Outcome)
        → s.channel ≡ t ∷ rest
        → s.writing ≡ true
        → Step s silent (write_line outcome t (record s { channel = rest }))

  pub data Runs : Session → List Event → Session → Type 0 where
    done : {s : Session} → Runs s [] s
    next :
        {s s' s'' : Session} {e : Event} {events : List Event}
        → Step s e s'
        → Runs s' events s''
        → Runs s (e ∷ events) s''
