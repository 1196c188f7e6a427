-- ===== src/Client/Session/Stream.antt =====
-- What src/client.rs writes to the socket: the lines that are sent, one by one and in order.
use qumulus.Base.{
  ℕ, zero, suc, ◌≡◌, refl, sym, ap, subst, ◌∙◌, true, false, Bool-cases, inl, inr, Option, some,
  List, [], ◌∷◌, ◌++◌, take, drop, arith,
}
use mathlib.Core.List.{append-nil, append_assoc}
use qumulus.Client.Session.{
  Session, Event, queued, taken, answered, announced, silent, Step, reads, rejects, hangs_up, takes,
  answers, finishes, pings, notifies, writes, Runs, done, next, put, send, answer_error, opened,
  hello, ping, write_line, Outcome, written, fails_after, newline,
}
use qumulus.Client.Lines.{error_line}
use qumulus.Json.{Json}
use qumulus.Text.{Text}

-- Each line with its newline.
abbrev pub unlines : List Text → Text
unlines [] = []
unlines (t ∷ texts) = (t ++ newline) ++ unlines texts

unlines-append : (xs ys : List Text) → unlines (xs ++ ys) ≡ unlines xs ++ unlines ys
unlines-append [] ys = refl
unlines-append (t ∷ xs) ys =
    ap (◌++◌ (t ++ newline)) (unlines-append xs ys)
    ∙ sym (append_assoc (t ++ newline) (unlines xs) (unlines ys))

take-drop : (n : ℕ) (s : Text) → take n s ++ drop n s ≡ s
take-drop zero s = refl
take-drop (suc n) [] = refl
take-drop (suc n) (c ∷ s) = ap (λ x. c ∷ x) (take-drop n s)

-- The lines that are sent, by whom ever.
abbrev pub messages : List Event → List Text
messages [] = []
messages (queued c ∷ events) = messages events
messages (taken w c texts ∷ events) = messages events
messages (answered w t ∷ events) = t ∷ messages events
messages (announced t ∷ events) = t ∷ messages events
messages (silent ∷ events) = messages events

-- This is all that was to be written: what is written is the first part of it, and while the writer
-- lives, the rest is in the channel.
abbrev pub Sends : Session → Text → Type 0
Sends s whole =
    ((lost : Text) × (s.stream ++ lost ≡ whole))
    × (s.writing ≡ true → s.stream ++ unlines s.channel ≡ whole)

-- A line that is sent when the writer has returned.
closed-Sends :
    (t : Text) (s : Session) (whole : Text)
    → s.writing ≡ false
    → Sends s whole
    → Sends s (whole ++ (t ++ newline))
closed-Sends t s whole w h = (
  (
    h.0.0 ++ (t ++ newline),
    sym (append_assoc s.stream h.0.0 (t ++ newline)) ∙ ap (λ x. x ++ (t ++ newline)) h.0.1,
  ),
  λ e. cc,
)

send_open :
    (t : Text) (s : Session)
    → s.writing ≡ true
    → send t s ≡ record s { channel = s.channel ++ t ∷ [] }
unfolding send
send_open t s w = ground arith

send_closed : (t : Text) (s : Session) → s.writing ≡ false → send t s ≡ s
unfolding send
send_closed t s w = ground arith

open-Sends :
    (t : Text) (s : Session) (whole : Text)
    → s.writing ≡ true
    → Sends s whole
    → Sends (record s { channel = s.channel ++ t ∷ [] }) (whole ++ (t ++ newline))
open-Sends t s whole w h =
    let all : s.stream ++ unlines (s.channel ++ t ∷ []) ≡ whole ++ (t ++ newline) =
      ap (◌++◌ s.stream) (
        unlines-append s.channel (t ∷ [])
        ∙ ap (◌++◌ (unlines s.channel)) (append-nil (t ++ newline)))
      ∙ sym (append_assoc s.stream (unlines s.channel) (t ++ newline))
      ∙ ap (λ x. x ++ (t ++ newline)) (h.1 w) in
    ((unlines (s.channel ++ t ∷ []), all), λ e. all)

send-Sends :
    (t : Text) (s : Session) (whole : Text)
    → Sends s whole
    → Sends (send t s) (whole ++ (t ++ newline))
send-Sends t s whole h = elim (Bool-cases s.writing) [
  | inl w ↦
      subst (λ x. Sends x (whole ++ (t ++ newline))) (sym (send_open t s w))
        (open-Sends t s whole w h)
  | inr w ↦
      subst (λ x. Sends x (whole ++ (t ++ newline))) (sym (send_closed t s w))
        (closed-Sends t s whole w h)
]

answer_error_open :
    (e : Text) (s : Session) → s.writing ≡ true → answer_error e s ≡ send (error_line e) s
unfolding answer_error
answer_error_open e s w = ground arith

answer_error_closed :
    (e : Text) (s : Session) → s.writing ≡ false → answer_error e s ≡ record s { reading = false }
unfolding answer_error
answer_error_closed e s w = ground arith

answer_error-Sends :
    (e : Text) (s : Session) (whole : Text)
    → Sends s whole
    → Sends (answer_error e s) (whole ++ (error_line e ++ newline))
answer_error-Sends e s whole h = elim (Bool-cases s.writing) [
  | inl w ↦
      subst (λ x. Sends x (whole ++ (error_line e ++ newline))) (sym (answer_error_open e s w))
        (send-Sends (error_line e) s whole h)
  | inr w ↦
      subst (λ x. Sends x (whole ++ (error_line e ++ newline))) (sym (answer_error_closed e s w))
        (closed-Sends (error_line e) s whole w h)
]

write_line-Sends :
    (o : Outcome) (t : Text) (rest : List Text) (s : Session) (whole : Text)
    → s.stream ++ unlines (t ∷ rest) ≡ whole
    → Sends (write_line o t (record s { channel = rest })) whole
unfolding write_line
write_line-Sends written t rest s whole all =
    let same = append_assoc s.stream (t ++ newline) (unlines rest) ∙ all in
    ((unlines rest, same), λ w. same)
write_line-Sends (fails_after n) t rest s whole all =
    let line = t ++ newline in
    (
      (
        drop n line ++ unlines rest,
        append_assoc s.stream (take n line) (drop n line ++ unlines rest)
            ∙ ap (◌++◌ s.stream) (
                sym (append_assoc (take n line) (drop n line) (unlines rest))
                ∙ ap (λ x. x ++ unlines rest) (take-drop n line))
            ∙ all,
      ),
      λ w. cc,
    )

one_line :
    (s : Session) (whole t : Text)
    → Sends s (whole ++ (t ++ newline))
    → Sends s (whole ++ unlines (t ∷ []))
one_line s whole t = subst (λ x. Sends s (whole ++ x)) (sym (append-nil (t ++ newline)))

no_line : (s : Session) (whole : Text) → Sends s whole → Sends s (whole ++ [])
no_line s whole = subst (Sends s) (sym (append-nil whole))

messages-cons :
    (e : Event) (events : List Event) → messages (e ∷ events) ≡ messages (e ∷ []) ++ messages events
messages-cons (queued c) events = refl
messages-cons (taken w c texts) events = refl
messages-cons (answered w t) events = refl
messages-cons (announced t) events = refl
messages-cons silent events = refl

module _ (parse : Text → Option Json) (as_u64 : Json → Option ℕ) (print : Json → Text) where
  Step-Sends :
      {s s' : Session} {e : Event} (whole : Text)
      → Step parse as_u64 print s e s'
      → Sends s whole
      → Sends s' (whole ++ unlines (messages (e ∷ [])))
  Step-Sends {s} whole (reads t now c r p) k = no_line s whole k
  Step-Sends {s} whole (rejects t now e r p) k =
      one_line (answer_error e s) whole (error_line e) (answer_error-Sends e s whole k)
  Step-Sends {s} whole (hangs_up r) k = no_line s whole k
  Step-Sends {s} whole (takes w c rest answer fuel m m' replies l i q p) k = no_line s whole k
  Step-Sends {s} whole (answers w t rest i) k =
      let s' = record s { workers = put w (some rest) s.workers } in
      one_line (send t s') whole t (send-Sends t s' whole k)
  Step-Sends {s} whole (finishes w i) k = no_line s whole k
  Step-Sends {s} whole pings k = one_line (send ping s) whole ping (send-Sends ping s whole k)
  Step-Sends {s} whole (notifies t) k = one_line (send t s) whole t (send-Sends t s whole k)
  Step-Sends {s} whole (writes t rest o c w) k =
      no_line (write_line o t (record s { channel = rest })) whole
        (write_line-Sends o t rest s whole (subst (λ x. s.stream ++ unlines x ≡ whole) c (k.1 w)))

  Runs-Sends :
      {s s' : Session} {events : List Event} (whole : Text)
      → Runs parse as_u64 print s events s'
      → Sends s whole
      → Sends s' (whole ++ unlines (messages events))
  Runs-Sends {s} whole done h = no_line s whole h
  Runs-Sends {s} {s'} whole (next {e = e} {events = events} step r) h =
      subst (Sends s')
        (append_assoc whole (unlines (messages (e ∷ []))) (unlines (messages events))
          ∙ ap (◌++◌ whole) (
              sym (unlines-append (messages (e ∷ [])) (messages events))
              ∙ ap unlines (sym (messages-cons e events))))
        (Runs-Sends (whole ++ unlines (messages (e ∷ []))) r (Step-Sends whole step h))

  -- What is written to a client's socket is at any time a first part of the greeting and the lines
  -- that were sent, by workers, listeners and others, in their order and each with its newline.
  -- While no write has failed, the rest of them is in the channel.
  pub stream_in_order :
      {s : Session} {events : List Event}
      → Runs parse as_u64 print opened events s
      → let whole = unlines (hello ∷ messages events) in
        ((rest : Text) × (s.stream ++ rest ≡ whole))
        × (s.writing ≡ true → s.stream ++ unlines s.channel ≡ whole)
  stream_in_order {s} {events} r =
      subst (Sends s) (ap (λ x. x ++ unlines (messages events)) (append-nil (hello ++ newline)))
        (Runs-Sends (unlines (hello ∷ [])) r ((unlines (hello ∷ []), refl), λ w. refl))
