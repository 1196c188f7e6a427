-- ===== src/Zone/Handle.antt =====
-- src/zone.rs, `ZoneHandle`: the messages that the other parts send to a zone.
use qumulus.Base.{ℕ, Bool, List}
use qumulus.Command.{Command}
use qumulus.Listener.{RListener}
use qumulus.Manager.Registry.{ZoneHandle}
use qumulus.Node.{NodeTree}
use qumulus.TreePath.{TreePath}
use qumulus.Zone.Data.{ZoneCall, ZoneData}

-- A call in the inbox of the zone. A call with an answer has the number of its channel, at which
-- the caller waits.
abbrev pub Message : Type 0
Message = ZoneHandle × ZoneCall

abbrev pub dispatch : ZoneHandle → Command → ℕ → ℕ → Message
dispatch self command tx listener =
    (self, ZoneCall.user_command (record { command = command; reply = tx; listener = listener }))

abbrev pub load : ZoneHandle → Message
load self = (self, ZoneCall.load)

abbrev pub loaded : ZoneHandle → ZoneData → Message
loaded self stored = (self, ZoneCall.loaded stored)

abbrev pub merge : ZoneHandle → NodeTree → Bool → Message
merge self diff replicate = (self, ZoneCall.merge diff replicate)

abbrev pub merge_with_listeners : ZoneHandle → NodeTree → List RListener → Message
merge_with_listeners self diff listeners = (self, ZoneCall.merge_with_listeners diff listeners)

abbrev pub path : ZoneHandle → TreePath
path self = self.path

abbrev pub hibernate : ZoneHandle → Message
hibernate self = (self, ZoneCall.hibernate)

abbrev pub save : ZoneHandle → Message
save self = (self, ZoneCall.save)

abbrev pub saved : ZoneHandle → Message
saved self = (self, ZoneCall.saved)

abbrev pub dump : ZoneHandle → ℕ → Message
dump self tx = (self, ZoneCall.dump tx)

abbrev pub size : ZoneHandle → ℕ → Message
size self tx = (self, ZoneCall.size tx)

abbrev pub state : ZoneHandle → ℕ → Message
state self tx = (self, ZoneCall.state tx)
