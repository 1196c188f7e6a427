-- ===== src/Tests/Calls.antt =====
-- The message loops of the processes and the methods of their handles, run on few calls.
use mathlib.Core.List.{Perm}
use qumulus.App
use qumulus.App.{ZoneStats}
use qumulus.Base.{ℕ, ◌≡◌, ◌↔◌, refl, true, false, Option, some, none, List, [], ◌∷◌, ◌++◌}
use qumulus.Client.Lines
use qumulus.Command
use qumulus.Command.{Command, from_json, ok, call_named}
use qumulus.Command.Request.{IsRequest, from_json_exact}
use qumulus.Json
use qumulus.Json.{Json}
use qumulus.Listener.{path_json}
use qumulus.Manager.Calls
use qumulus.Manager.Calls.{ManagerCall, Output, message_loop}
use qumulus.Manager.Calls.Sound.{IsSound, counted_all, message_loop-IsSound}
use qumulus.Manager.Handle.{send_externals}
use qumulus.Manager.Registry
use qumulus.Manager.Registry.{Manager, ZoneHandle}
use qumulus.Manager.Registry.Limits.{new-IsValid}
use qumulus.Node
use qumulus.Node.Steps.{External}
use qumulus.Shell.{parse_line, zone_dump}
use qumulus.Store.Calls.{StoreCall, Circumstances, fs_loop, request_write}
use qumulus.Store.Calls.Accounts.{requests_kept}
use qumulus.Store.Disk.{succeeds}
use qumulus.Store.Fs.{Fs}
use qumulus.Store.Fs.Served.{woken}
use qumulus.Text.{Text, text, text_eq}
use qumulus.TreePath.{TreePath}
use qumulus.Zone.Data.{ZoneData}

abbrev rooms : TreePath
rooms = text "rooms" ∷ []

abbrev zone : ZoneHandle
zone = record { path = rooms }

abbrev counters : ZoneStats
counters = record { local_active = App.zeroed; local_loaded = App.zeroed }

-- A zone is loaded by a client, asks for its data, and is found by another client.
abbrev calls : List (Option ℕ × ManagerCall)
calls =
    (some 1, Calls.load rooms)
    ∷ (none, Calls.signal_request_load zone)
    ∷ (some 2, Calls.find rooms)
    ∷ []

abbrev managed : Manager
managed = record { active = (rooms, zone) ∷ []; loaded = 1; requesting_load = [] }

abbrev answers : List Output
answers =
    Calls.effect (Registry.spawn_zone rooms)
    ∷ Calls.effect Registry.local_active_increment
    ∷ Calls.reply 1 (Calls.zone zone)
    ∷ Calls.effect (Registry.load_zone_call zone)
    ∷ Calls.effect (Registry.tell_eviction (Registry.loaded zone))
    ∷ Calls.effect Registry.local_loaded_increment
    ∷ Calls.reply 2 (Calls.optional_zone (some zone))
    ∷ []

handles_calls : message_loop 5 Registry.new calls ≡ some (managed, answers)
unfolding message_loop Registry.new Registry.path_cmp qumulus.Text.text_cmp
handles_calls = refl

new-IsSound : IsSound Registry.new counters
unfolding Registry.new
new-IsSound = record { valid = new-IsValid; placed = tt; counted = refl }

message_loop-IsSound_example : IsSound managed (counted_all counters answers)
message_loop-IsSound_example =
    message_loop-IsSound 5 calls Registry.new counters handles_calls new-IsSound

-- Two externals below one zone.
abbrev moved : Text → External
moved k = record { path = k ∷ []; tree = Node.default_tree; initial = false }

-- Both externals are sent below the same prefix.
second_path :
    (send_externals rooms (moved (text "a") ∷ moved (text "b") ∷ []) managed).0.active
    ≡ (rooms, zone)
      ∷ (text "rooms" ∷ text "a" ∷ [], record { path = text "rooms" ∷ text "a" ∷ [] })
      ∷ (text "rooms" ∷ text "b" ∷ [], record { path = text "rooms" ∷ text "b" ∷ [] })
      ∷ []
unfolding send_externals Registry.path_cmp qumulus.Text.text_cmp
second_path = refl

-- A store whose workers are all busy, and then are not.
abbrev busy : ℕ → Circumstances
busy n = record {
  readable = λ name. true;
  file_readable = true;
  active_count = n;
  outcome = succeeds;
}

abbrev asks : List (Circumstances × StoreCall)
asks =
    (busy 50, request_write zone)
    ∷ (busy 0, request_write (record { path = [] }))
    ∷ (busy 50, StoreCall.write zone rooms [])
    ∷ []

abbrev empty_store : Fs
empty_store = record { dir = []; write_queue = [] }

abbrev no_hash : Text → Text
no_hash s = []

abbrev unread : Text → Option ZoneData
unread bytes = none

requests_kept_example :
    let (fs, sent) = fs_loop no_hash unread asks empty_store in
    Perm (woken sent ++ fs.write_queue) (zone ∷ record { path = [] } ∷ [])
requests_kept_example = requests_kept no_hash unread asks empty_store

-- The end of the write wakes the zone that was put off.
put_off_is_woken :
    woken (fs_loop no_hash unread asks empty_store).1 ≡ record { path = [] } ∷ zone ∷ []
unfolding fs_loop
put_off_is_woken = refl

abbrev two_rooms : TreePath
two_rooms = text "rooms" ∷ text "cows" ∷ []

dumps_two_rooms : parse_line (text "zone.dump rooms.cows") ≡ zone_dump two_rooms
unfolding parse_line
dumps_two_rooms = refl

-- A reader that knows one request, and refuses the empty text.
abbrev request : Json
request = Json.array (
    Json.cons (Json.number (Json.of_u64 7)) (
      Json.cons (Json.string (text "read"))
        (Json.cons (Json.array (path_json rooms)) (Json.cons Json.null Json.nil))))

abbrev pub parse_request : Text → Option Json
parse_request [] = none
parse_request (c ∷ json) = some request

abbrev pub id_of : Json → Option ℕ
id_of (Json.number (Json.of_u64 n)) = some n
id_of _ = none

abbrev pub command : Command
command = record { id = 7; call = Command.read; path = rooms; params = Json.null; timestamp = 12 }

from_json_exact_example :
    (from_json parse_request id_of (text "[") 12 ≡ ok command)
    ↔ ((whole : Json) × (parse_request (text "[") ≡ some whole) × IsRequest id_of whole 12 command)
from_json_exact_example = from_json_exact parse_request id_of (text "[") 12 command

pub reads_request : from_json parse_request id_of (text "[") 12 ≡ ok command
unfolding from_json text_eq
reads_request = refl
