-- ===== src/Client/Lines.antt =====
-- src/client.rs, the read loop of `handle_stream`: the lines that a client sends.
use qumulus.Base.{ℕ, zero, suc, ◌≡◌, Option, some, List, [], ◌∷◌, ◌++◌}
use qumulus.Command.{Command, Result, ok, err, from_json}
use qumulus.Command.Request.{IsRequest}
use qumulus.Json.{Json}
use qumulus.Text.{Text, text}

-- A line with the time at which it is read, or an error of the connection, which is only printed.
pub data Line : Type 0 where
  line : Text → ℕ → Line
  connection_error : Line

-- A command goes to the queue of the workers, a text back to the client.
pub data Sent : Type 0 where
  queued : Command → Sent
  answered : Text → Sent

abbrev pub quote : Text
quote = b'"' ∷ []

-- `[0,"error","<e>"]`.
abbrev pub error_line : Text → Text
error_line e =
    text "[0," ++ quote ++ text "error" ++ quote ++ text "," ++ quote ++ e ++ quote ++ text "]"

-- `[0,"error","`, before the rest of an answer.
abbrev pub with_head : Text → Text
with_head rest =
    b'[' ∷ b'0' ∷ b',' ∷ b'"' ∷ b'e' ∷ b'r' ∷ b'r' ∷ b'o' ∷ b'r' ∷ b'"' ∷ b',' ∷ b'"' ∷ rest

module _ (parse : Text → Option Json) (as_u64 : Json → Option ℕ) where
  abbrev pub sent_for : Result Command → Sent
  sent_for (ok command) = queued command
  sent_for (err e) = answered (error_line e)

  unfoldable pub read_loop : List Line → List Sent
  unfolding from_json
  read_loop [] = []
  read_loop (connection_error ∷ lines) = read_loop lines
  read_loop (line t now ∷ lines) = sent_for (from_json parse as_u64 t now) ∷ read_loop lines

  -- The line is the request that the command says.
  abbrev pub IsLine : Text → ℕ → Command → Type 0
  IsLine t now c = (whole : Json) × (parse t ≡ some whole) × IsRequest as_u64 whole now c

  -- The answer to a line that says no command: an array of 0, "error" and what is wrong.
  abbrev pub IsErrorAnswer : Text → ℕ → Text → Type 0
  IsErrorAnswer t now message =
      (e : Text) × (from_json parse as_u64 t now ≡ err e)
      × (message ≡ with_head (e ++ b'"' ∷ b']' ∷ []))

  -- Each line in its turn is queued as the command that it says, or answered, if it says none.
  abbrev pub IsHandled : List Line → List Sent → Type 0
  IsHandled [] sent = sent ≡ []
  IsHandled (connection_error ∷ lines) sent = IsHandled lines sent
  IsHandled (line t now ∷ lines) [] = zero ≡ suc zero
  IsHandled (line t now ∷ lines) (queued c ∷ sent) = IsLine t now c × IsHandled lines sent
  IsHandled (line t now ∷ lines) (answered message ∷ sent) =
      ((c : Command) → ¬ IsLine t now c) × IsErrorAnswer t now message × IsHandled lines sent
