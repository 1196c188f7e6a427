-- ===== src/Client/Session/Ordered.antt =====
-- Commands are taken in the order in which they were read, and each is answered in full.
use qumulus.Base.{
  Bool, false, map, subst, ℕ, ◌≡◌, ◌==◌, refl, sym, ap, ◌∙◌, Option, none, some, List, [], ◌∷◌,
  ◌++◌, if◌then◌else◌, arith,
}
use mathlib.Core.List.{append-nil, append_assoc}
use qumulus.Client.Session.{
  queued, taken, answered, announced, silent, hello, Session, Event, Step, reads, rejects, hangs_up,
  takes, answers, finishes, pings, notifies, writes, Runs, done, next, put, send, answer_error,
  write_line, Outcome, written, fails_after, opened, ping, lines,
}
use qumulus.Client.Session.Events.{
  commands_queued, commands_taken, lines_due, lines_sent, commands_queued-cons, commands_taken-cons,
  lines_due-cons, lines_sent-cons,
}
use qumulus.Client.Session.Stream.{unlines, messages, Sends, stream_in_order}
use qumulus.Json.{Json}
use qumulus.Text.{Text}

abbrev pub or_empty : Option (List Text) → List Text
or_empty none = []
or_empty (some texts) = texts

abbrev pub lines_left : ℕ → Session → List Text
lines_left v s = or_empty (s.workers v)

send-same :
    (t : Text) (s : Session) (v : ℕ)
    → ((send t s).commands ≡ s.commands) × ((send t s).workers v ≡ s.workers v)
unfolding send
send-same t s v = ground arith

answer_error-same :
    (e : Text) (s : Session) (v : ℕ)
    → ((answer_error e s).commands ≡ s.commands) × ((answer_error e s).workers v ≡ s.workers v)
unfolding answer_error
answer_error-same e s v = ground arith

write_line-same :
    (o : Outcome) (t : Text) (s : Session) (v : ℕ)
    → ((write_line o t s).commands ≡ s.commands) × ((write_line o t s).workers v ≡ s.workers v)
unfolding write_line
write_line-same written t s v = (refl, refl)
write_line-same (fails_after n) t s v = (refl, refl)

-- A line with the worker that sent it; the greeting, pings, errors and listeners have none.
abbrev pub SentLine : Type 0
SentLine = Option ℕ × Text

abbrev pub text_of : SentLine → Text
text_of (source, t) = t

abbrev is_from : ℕ → Option ℕ → Bool
is_from v none = false
is_from v (some w) = v == w

abbrev pub lines_of : ℕ → List SentLine → List Text
lines_of v [] = []
lines_of v ((source, t) ∷ sent) = (if is_from v source then t ∷ [] else []) ++ lines_of v sent

abbrev sent_lines : List Event → List SentLine
sent_lines [] = []
sent_lines (queued c ∷ events) = sent_lines events
sent_lines (taken w c texts ∷ events) = sent_lines events
sent_lines (answered w t ∷ events) = (some w, t) ∷ sent_lines events
sent_lines (announced t ∷ events) = (none, t) ∷ sent_lines events
sent_lines (silent ∷ events) = sent_lines events

text_of-sent_lines : (events : List Event) → map text_of (sent_lines events) ≡ messages events
text_of-sent_lines [] = refl
text_of-sent_lines (queued c ∷ events) = text_of-sent_lines events
text_of-sent_lines (taken w c texts ∷ events) = text_of-sent_lines events
text_of-sent_lines (answered w t ∷ events) = ap (λ x. t ∷ x) (text_of-sent_lines events)
text_of-sent_lines (announced t ∷ events) = ap (λ x. t ∷ x) (text_of-sent_lines events)
text_of-sent_lines (silent ∷ events) = text_of-sent_lines events

lines_of-sent_lines :
    (v : ℕ) (events : List Event) → lines_of v (sent_lines events) ≡ lines_sent v events
lines_of-sent_lines v [] = refl
lines_of-sent_lines v (queued c ∷ events) = lines_of-sent_lines v events
lines_of-sent_lines v (taken w c texts ∷ events) = lines_of-sent_lines v events
lines_of-sent_lines v (answered w t ∷ events) =
    ap (◌++◌ (if v == w then t ∷ [] else [])) (lines_of-sent_lines v events)
lines_of-sent_lines v (announced t ∷ events) = lines_of-sent_lines v events
lines_of-sent_lines v (silent ∷ events) = lines_of-sent_lines v events

-- Nothing is due and nothing is sent.
same_left :
    (v : ℕ) (s s' : Session) → s'.workers v ≡ s.workers v → lines_left v s' ≡ lines_left v s ++ []
same_left v s s' e = ap or_empty e ∙ sym (append-nil (lines_left v s))

-- What has come out and what is left is what was there and what has come in: for a step, and then
-- for the steps after it.
regroup :
    {A : Type 0} {outs ins : List A} (out1 out2 in1 in2 before between after : List A)
    → outs ≡ out1 ++ out2
    → ins ≡ in1 ++ in2
    → out1 ++ between ≡ before ++ in1
    → out2 ++ after ≡ between ++ in2
    → outs ++ after ≡ before ++ ins
regroup out1 out2 in1 in2 before between after e f g h =
    ap (λ x. x ++ after) e
    ∙ append_assoc out1 out2 after
    ∙ ap (◌++◌ out1) h
    ∙ sym (append_assoc out1 between in2)
    ∙ ap (λ x. x ++ in2) g
    ∙ append_assoc before in1 in2
    ∙ ap (◌++◌ before) (sym f)

module _ (v w : ℕ) (workers : ℕ → Option (List Text)) where
  takes-lines :
      (texts : List Text)
      → workers w ≡ none
      → or_empty (put w (some texts) workers v)
        ≡ or_empty (workers v) ++ ((if v == w then texts else []) ++ [])
  takes-lines texts e = ground (arith, append-nil texts, append-nil (or_empty (workers v)))

  answers-lines :
      (t : Text) (rest : List Text)
      → workers w ≡ some (t ∷ rest)
      → ((if v == w then t ∷ [] else []) ++ []) ++ or_empty (put w (some rest) workers v)
        ≡ or_empty (workers v) ++ []
  answers-lines t rest e = ground (arith, append-nil (or_empty (workers v)))

  finishes-lines :
      workers w ≡ some [] → or_empty (put w none workers v) ≡ or_empty (workers v) ++ []
  finishes-lines e = ground (arith, append-nil (or_empty (workers v)))

module _ (parse : Text → Option Json) (as_u64 : Json → Option ℕ) (print : Json → Text) where
  Step-commands :
      {s s' : Session} {e : Event}
      → Step parse as_u64 print s e s'
      → commands_taken (e ∷ []) ++ s'.commands ≡ s.commands ++ commands_queued (e ∷ [])
  Step-commands (reads t now c r p) = refl
  Step-commands {s} (rejects t now e r p) =
      (answer_error-same e s 0).0 ∙ sym (append-nil s.commands)
  Step-commands {s} (hangs_up r) = sym (append-nil s.commands)
  Step-commands {s} (takes w c rest answer fuel m m' replies l i q p) =
      sym q ∙ sym (append-nil s.commands)
  Step-commands {s} (answers w t rest i) =
      (send-same t (record s { workers = put w (some rest) s.workers }) 0).0
      ∙ sym (append-nil s.commands)
  Step-commands {s} (finishes w i) = sym (append-nil s.commands)
  Step-commands {s} pings = (send-same ping s 0).0 ∙ sym (append-nil s.commands)
  Step-commands {s} (notifies t) = (send-same t s 0).0 ∙ sym (append-nil s.commands)
  Step-commands {s} (writes t rest o c w) =
      (write_line-same o t (record s { channel = rest }) 0).0 ∙ sym (append-nil s.commands)

  Step-lines :
      {s s' : Session} {e : Event} (v : ℕ)
      → Step parse as_u64 print s e s'
      → lines_sent v (e ∷ []) ++ lines_left v s' ≡ lines_left v s ++ lines_due v (e ∷ [])
  Step-lines {s} v (reads t now c r p) = sym (append-nil (lines_left v s))
  Step-lines {s} v (rejects t now e r p) =
      same_left v s (answer_error e s) (answer_error-same e s v).1
  Step-lines {s} v (hangs_up r) = sym (append-nil (lines_left v s))
  Step-lines {s} v (takes w c rest answer fuel m m' replies l i q p) =
      takes-lines v w s.workers (lines parse as_u64 print replies) i
  Step-lines {s} v (answers w t rest i) =
      ap (λ x. ((if v == w then t ∷ [] else []) ++ []) ++ or_empty x)
        (send-same t (record s { workers = put w (some rest) s.workers }) v).1
      ∙ answers-lines v w s.workers t rest i
  Step-lines {s} v (finishes w i) = finishes-lines v w s.workers i
  Step-lines {s} v pings = same_left v s (send ping s) (send-same ping s v).1
  Step-lines {s} v (notifies t) = same_left v s (send t s) (send-same t s v).1
  Step-lines {s} v (writes t rest o c w) =
      same_left v s (write_line o t (record s { channel = rest }))
        (write_line-same o t (record s { channel = rest }) v).1

  Runs-commands :
      {s s' : Session} {events : List Event}
      → Runs parse as_u64 print s events s'
      → commands_taken events ++ s'.commands ≡ s.commands ++ commands_queued events
  Runs-commands {s} done = sym (append-nil s.commands)
  Runs-commands {s} {s'} (next {s' = between} {e = e} {events = events} step r) =
      regroup (commands_taken (e ∷ [])) (commands_taken events) (commands_queued (e ∷ []))
        (commands_queued events) s.commands between.commands s'.commands
        (commands_taken-cons e events) (commands_queued-cons e events) (Step-commands step)
        (Runs-commands r)

  Runs-lines :
      {s s' : Session} {events : List Event} (v : ℕ)
      → Runs parse as_u64 print s events s'
      → lines_sent v events ++ lines_left v s' ≡ lines_left v s ++ lines_due v events
  Runs-lines {s} v done = sym (append-nil (lines_left v s))
  Runs-lines {s} {s'} v (next {s' = between} {e = e} {events = events} step r) =
      regroup (lines_sent v (e ∷ [])) (lines_sent v events) (lines_due v (e ∷ []))
        (lines_due v events) (lines_left v s) (lines_left v between) (lines_left v s')
        (lines_sent-cons v e events) (lines_due-cons v e events) (Step-lines v step)
        (Runs-lines v r)

  -- However the parts of a client's session are interleaved, the workers take the commands in the
  -- order in which they were read, none lost or repeated. There is a sequence of lines, each with
  -- the worker that sends it or with none, such that each worker sends in it the lines of the
  -- answers to its commands, in their order, none lost or repeated, but for those of its last
  -- command that are left; and it is the sequence that reaches the client: after the greeting, the
  -- socket has a first part of it, and while no write has failed, the rest is in the channel.
  pub answers_in_order :
      {s : Session} {events : List Event}
      → Runs parse as_u64 print opened events s
      → (commands_taken events ++ s.commands ≡ commands_queued events)
        × ((sent : List SentLine) × ((v : ℕ)
              → lines_of v sent ++ lines_left v s ≡ lines_due v events)
            × Sends s (unlines (hello ∷ map text_of sent)))
  answers_in_order {s} {events} r = (
    Runs-commands r,
    (
      sent_lines events,
      λ v. ap (λ x. x ++ lines_left v s) (lines_of-sent_lines v events) ∙ Runs-lines v r,
      subst (Sends s) (ap (λ x. unlines (hello ∷ x)) (sym (text_of-sent_lines events)))
          (stream_in_order parse as_u64 print r),
    ),
  )
