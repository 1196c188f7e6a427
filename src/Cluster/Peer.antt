-- ===== src/Cluster/Peer.antt =====
-- src/cluster.rs, `PeerState`: the messages to one peer, over connections that may fail.
use mathlib.Core.List.{append-nil, append_assoc}
use qumulus.Base.{
  Bool, true, false, ◌≡◌, refl, sym, ◌∙◌, ap, Option, none, some, List, [], ◌∷◌, ◌++◌,
  if◌then◌else◌, arith,
}
use qumulus.Cluster.{ClusterMessage}

-- `connected` is whether there is a stream.
pub record PeerState : Type 0 where
  pub pending : Option ClusterMessage
  pub connected : Bool
  pub inbox : List ClusterMessage

abbrev pub spawned : PeerState
spawned = record { pending = none; connected = false; inbox = [] }

-- After an attempt to connect, if there is no stream.
abbrev connect : Bool → PeerState → PeerState
connect connects s = if s.connected then s else record s { connected = connects }

-- What is written to the stream; on a failure the stream is dropped and the message kept.
abbrev pub attempt : Bool → ClusterMessage → PeerState → PeerState × List ClusterMessage
attempt writes msg s =
    if s.connected
    then (if writes
        then (s, msg ∷ [])
        else (record s { connected = false; pending = some msg }, []))
    else (record s { pending = some msg }, [])

abbrev next_message :
    Option ClusterMessage → List ClusterMessage → Option (ClusterMessage × List ClusterMessage)
next_message (some msg) inbox = some (msg, inbox)
next_message none [] = none
next_message none (msg ∷ inbox) = some (msg, inbox)

abbrev round_with :
    Bool
    → Bool
    → PeerState
    → Option (ClusterMessage × List ClusterMessage)
    → Option (PeerState × List ClusterMessage)
round_with connects writes s none = none
round_with connects writes s (some (msg, inbox)) =
    some (attempt writes msg (connect connects (record s { pending = none; inbox = inbox })))

-- A round of the loop; `none` waits for a message.
unfoldable pub round : Bool → Bool → PeerState → Option (PeerState × List ClusterMessage)
round connects writes s = round_with connects writes s (next_message s.pending s.inbox)

-- Messages arrive and rounds are run, in any order and with any failures: what has arrived, and
-- what was written.
pub data Runs : PeerState → List ClusterMessage → List ClusterMessage → PeerState → Type 0 where
  done : {s : PeerState} → Runs s [] [] s
  arrives :
      {s t : PeerState} {arrived written : List ClusterMessage} (msg : ClusterMessage)
      → Runs (record s { inbox = s.inbox ++ msg ∷ [] }) arrived written t
      → Runs s (msg ∷ arrived) written t
  rounds :
      {s s' t : PeerState} {arrived written sent : List ClusterMessage} (connects writes : Bool)
      → round connects writes s ≡ some (s', sent)
      → Runs s' arrived written t
      → Runs s arrived (sent ++ written) t

-- The messages that a peer has still to write, in order.
abbrev waiting_of : Option ClusterMessage → List ClusterMessage → List ClusterMessage
waiting_of none inbox = inbox
waiting_of (some msg) inbox = msg ∷ inbox

abbrev pub waiting : PeerState → List ClusterMessage
waiting s = waiting_of s.pending s.inbox

attempt-waiting :
    (writes : Bool) (msg : ClusterMessage) (s : PeerState)
    → s.pending ≡ none
    → let (s', sent) = attempt writes msg s in sent ++ waiting s' ≡ msg ∷ s.inbox
attempt-waiting writes msg s h = ground arith

round-waiting :
    (connects writes : Bool) (s : PeerState) {s' : PeerState} {sent : List ClusterMessage}
    → round connects writes s ≡ some (s', sent)
    → sent ++ waiting s' ≡ waiting s
unfolding round
round-waiting connects writes s e = ground arith

waiting-arrives :
    (o : Option ClusterMessage) (inbox : List ClusterMessage) (msg : ClusterMessage)
    (arrived : List ClusterMessage)
    → waiting_of o (inbox ++ msg ∷ []) ++ arrived ≡ waiting_of o inbox ++ msg ∷ arrived
waiting-arrives none inbox msg arrived = append_assoc inbox (msg ∷ []) arrived
waiting-arrives (some m) inbox msg arrived = ap (λ x. m ∷ x) (append_assoc inbox (msg ∷ []) arrived)

-- However connecting and writing fail, the messages that were written and those that wait are, in
-- this order, those that waited at first and those that arrived: none is lost, repeated or
-- overtaken.
pub peer_keeps_order :
    {s t : PeerState} {arrived written : List ClusterMessage}
    → Runs s arrived written t
    → written ++ waiting t ≡ waiting s ++ arrived
peer_keeps_order {s} done = sym (append-nil (waiting s))
peer_keeps_order {s} (arrives {arrived = arrived} msg r) =
    peer_keeps_order r ∙ waiting-arrives s.pending s.inbox msg arrived
peer_keeps_order {s} {t}
      (rounds {s' = s'} {arrived = arrived} {written = written} {sent = sent} connects writes e r) =
    append_assoc sent written (waiting t)
    ∙ ap (λ x. sent ++ x) (peer_keeps_order r)
    ∙ sym (append_assoc sent (waiting s') arrived)
    ∙ ap (λ x. x ++ arrived) (round-waiting connects writes s e)

-- A round that connects and writes sends the message that has waited longest.
pub round_progress :
    (s : PeerState) {msg : ClusterMessage} {rest : List ClusterMessage}
    → waiting s ≡ msg ∷ rest
    → (s' : PeerState) × (round true true s ≡ some (s', msg ∷ [])) × (waiting s' ≡ rest)
unfolding round
round_progress s {rest = rest} h =
    (record { pending = none; connected = true; inbox = rest }, ground arith, refl)
