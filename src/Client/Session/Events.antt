-- ===== src/Client/Session/Events.antt =====
-- What the steps of a client's session of src/client.rs show: commands and lines of answers.
use qumulus.Base.{ℕ, ◌≡◌, ◌==◌, refl, sym, ap, List, [], ◌∷◌, ◌++◌, if◌then◌else◌}
use mathlib.Core.List.{append-nil}
use qumulus.Client.Session.{Event, queued, taken, answered, announced, silent}
use qumulus.Command.{Command}
use qumulus.Text.{Text}

abbrev pub commands_queued : List Event → List Command
commands_queued [] = []
commands_queued (queued c ∷ events) = c ∷ commands_queued events
commands_queued (taken w c texts ∷ events) = commands_queued events
commands_queued (answered w t ∷ events) = commands_queued events
commands_queued (announced t ∷ events) = commands_queued events
commands_queued (silent ∷ events) = commands_queued events

abbrev pub commands_taken : List Event → List Command
commands_taken [] = []
commands_taken (queued c ∷ events) = commands_taken events
commands_taken (taken w c texts ∷ events) = c ∷ commands_taken events
commands_taken (answered w t ∷ events) = commands_taken events
commands_taken (announced t ∷ events) = commands_taken events
commands_taken (silent ∷ events) = commands_taken events

-- The lines that worker `v` has to send for the commands that it takes, and those that it sends.
abbrev pub lines_due : ℕ → List Event → List Text
lines_due v [] = []
lines_due v (queued c ∷ events) = lines_due v events
lines_due v (taken w c texts ∷ events) = (if v == w then texts else []) ++ lines_due v events
lines_due v (answered w t ∷ events) = lines_due v events
lines_due v (announced t ∷ events) = lines_due v events
lines_due v (silent ∷ events) = lines_due v events

abbrev pub lines_sent : ℕ → List Event → List Text
lines_sent v [] = []
lines_sent v (queued c ∷ events) = lines_sent v events
lines_sent v (taken w c texts ∷ events) = lines_sent v events
lines_sent v (answered w t ∷ events) = (if v == w then t ∷ [] else []) ++ lines_sent v events
lines_sent v (announced t ∷ events) = lines_sent v events
lines_sent v (silent ∷ events) = lines_sent v events

pub commands_taken-cons :
    (e : Event) (events : List Event)
    → commands_taken (e ∷ events) ≡ commands_taken (e ∷ []) ++ commands_taken events
commands_taken-cons (queued c) events = refl
commands_taken-cons (taken w c texts) events = refl
commands_taken-cons (answered w t) events = refl
commands_taken-cons (announced t) events = refl
commands_taken-cons silent events = refl

pub commands_queued-cons :
    (e : Event) (events : List Event)
    → commands_queued (e ∷ events) ≡ commands_queued (e ∷ []) ++ commands_queued events
commands_queued-cons (queued c) events = refl
commands_queued-cons (taken w c texts) events = refl
commands_queued-cons (answered w t) events = refl
commands_queued-cons (announced t) events = refl
commands_queued-cons silent events = refl

pub lines_sent-cons :
    (v : ℕ) (e : Event) (events : List Event)
    → lines_sent v (e ∷ events) ≡ lines_sent v (e ∷ []) ++ lines_sent v events
lines_sent-cons v (queued c) events = refl
lines_sent-cons v (taken w c texts) events = refl
lines_sent-cons v (answered w t) events =
    ap (λ x. x ++ lines_sent v events) (sym (append-nil (if v == w then t ∷ [] else [])))
lines_sent-cons v (announced t) events = refl
lines_sent-cons v silent events = refl

pub lines_due-cons :
    (v : ℕ) (e : Event) (events : List Event)
    → lines_due v (e ∷ events) ≡ lines_due v (e ∷ []) ++ lines_due v events
lines_due-cons v (queued c) events = refl
lines_due-cons v (taken w c texts) events =
    ap (λ x. x ++ lines_due v events) (sym (append-nil (if v == w then texts else [])))
lines_due-cons v (answered w t) events = refl
lines_due-cons v (announced t) events = refl
lines_due-cons v silent events = refl
