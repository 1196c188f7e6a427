-- ===== src/Store/Calls/Accounts.antt =====
-- The file store of src/store/fs.rs loses no request to write.
use mathlib.Core.List.{Perm, append-nil, append_assoc, perm_append_singleton}
use mathlib.Core.List.Perm
use qumulus.Base.{
  ℕ, Bool, true, false, leb, if◌then◌else◌, ◌≡◌, refl, sym, ◌∙◌, ap, subst, Option, none, some, inl,
  inr, Option-cases, Bool-cases, List, [], ◌∷◌, ◌++◌,
}
use qumulus.Manager.Registry.{ZoneHandle}
use qumulus.Store.Calls.{
  StoreCall, Circumstances, fs_handle, fs_loop, list, load, load_data, request_write, write,
  fs_step,
}
use qumulus.Store.Disk.{Disk, blocking_read, blocking_write}
use qumulus.Store.Filename.{zonefilename}
use qumulus.Store.Fs
use qumulus.Store.Fs.{Fs, Effect}
use qumulus.Store.Fs.Served.{woken}
use qumulus.Text.{Text}
use qumulus.Zone.Data.{ZoneData}

-- The zones that ask to write.
abbrev pub asking : StoreCall → List ZoneHandle
asking (request_write zone) = zone ∷ []
asking _ = []

abbrev pub asking_all : List (Circumstances × StoreCall) → List ZoneHandle
asking_all [] = []
asking_all ((c, call) ∷ calls) = asking call ++ asking_all calls

-- The zones that waited or asked are those that are woken or wait.
abbrev Accounts : Fs → List ZoneHandle → Option (Fs × List Effect) → Type 0
Accounts fs asked none = [] ≡ asked
Accounts fs asked (some (fs', sent)) =
    Perm (woken sent ++ fs'.write_queue) (fs.write_queue ++ asked)

woken-append : (a b : List Effect) → woken (a ++ b) ≡ woken a ++ woken b
woken-append [] b = refl
woken-append (Fs.loaded z d ∷ a) b = woken-append a b
woken-append (Fs.save z ∷ a) b = ap (λ x. z ∷ x) (woken-append a b)
woken-append (Fs.saved z ∷ a) b = woken-append a b
woken-append (Fs.reply_path tx p ∷ a) b = woken-append a b
woken-append (Fs.reply_data tx d ∷ a) b = woken-append a b

Perm-of_eq : {a b : List ZoneHandle} → a ≡ b → Perm a b
Perm-of_eq {a} e = subst (Perm a) e (Perm.refl a)

request-Accounts :
    (n : ℕ) (zone : ZoneHandle) (fs : Fs)
    → Accounts fs (zone ∷ []) (some (Fs.request_write n zone fs))
unfolding Fs.request_write
request-Accounts n zone fs = elim (Bool-cases (leb Fs.num_threads n)) [
  | inl e ↦ rw (e, Accounts) (Perm.refl (fs.write_queue ++ zone ∷ []))
  | inr e ↦ rw (e, Accounts) (Perm.symm (perm_append_singleton zone fs.write_queue))
]

wake-Accounts :
    (fs : Fs) (queue : List ZoneHandle) (sent : List Effect)
    → fs.write_queue ≡ queue
    → woken sent ≡ []
    → let (fs', sent') = Fs.wake fs queue sent in woken sent' ++ fs'.write_queue ≡ queue
wake-Accounts fs [] sent e h = rw (h, e) refl
wake-Accounts fs (z ∷ queue) sent e h = rw (woken-append sent (Fs.save z ∷ []), h) refl

notify_loaded-woken :
    (zone : ZoneHandle) (stored : Option ZoneData) → woken (Fs.notify_loaded zone stored) ≡ []
notify_loaded-woken zone none = refl
notify_loaded-woken zone (some stored) = refl

saved-woken :
    (zone : ZoneHandle) (written : Bool) → woken (if written then Fs.saved zone ∷ [] else []) ≡ []
saved-woken zone true = refl
saved-woken zone false = refl

list-woken :
    (hash : Text → Text) (deserialize : Text → Option ZoneData) (readable : Text → Bool) (tx : ℕ)
    (dir entries : Disk)
    → woken (Fs.list_from hash deserialize readable tx dir entries) ≡ []
unfolding Fs.list_from
list-woken hash deserialize readable tx dir [] = refl
list-woken hash deserialize readable tx dir ((entry, bytes) ∷ entries) =
    let rest = list-woken hash deserialize readable tx dir entries in
    elim (Option-cases (blocking_read deserialize (readable entry) entry dir)) [
      | inl e ↦ rw e rest
      | inr (stored, e) ↦ rw e rest
    ]

module _ (hash : Text → Text) (deserialize : Text → Option ZoneData) where
  quiet :
      (fs fs' : Fs) (sent : List Effect)
      → fs'.write_queue ≡ fs.write_queue
      → woken sent ≡ []
      → Accounts fs [] (some (fs', sent))
  quiet fs fs' sent e h = rw (h, e) (Perm-of_eq (sym (append-nil fs.write_queue)))

  handle-Accounts :
      (c : Circumstances) (call : StoreCall) (fs : Fs)
      → Accounts fs (asking call) (fs_handle hash deserialize c call fs)
  unfolding fs_handle
  handle-Accounts c (list tx) fs =
      quiet fs fs (Fs.list_from hash deserialize c.readable tx fs.dir fs.dir) refl
        (list-woken hash deserialize c.readable tx fs.dir fs.dir)
  handle-Accounts c (load zone path) fs = elim (Option-cases (zonefilename hash path)) [
    | inl e ↦ rw (e, Accounts) refl
    | inr (file, e) ↦
        let stored = blocking_read deserialize c.file_readable file fs.dir in
        rw (e, Accounts)
          (quiet fs fs (Fs.notify_loaded zone stored) refl (notify_loaded-woken zone stored))
  ]
  handle-Accounts c (load_data path tx) fs = elim (Option-cases (zonefilename hash path)) [
    | inl e ↦ rw (e, Accounts) refl
    | inr (file, e) ↦
        rw (e, Accounts)
          (quiet fs fs
            (Fs.reply_data tx (blocking_read deserialize c.file_readable file fs.dir) ∷ []) refl
            refl)
  ]
  handle-Accounts c (request_write zone) fs = request-Accounts c.active_count zone fs
  handle-Accounts c (write zone path serialized) fs = elim (Option-cases (zonefilename hash path)) [
    | inl e ↦ rw (e, Accounts) refl
    | inr (file, e) ↦
        let w = blocking_write c.outcome file serialized fs.dir in
        rw (e, Accounts)
          (Perm-of_eq (
            wake-Accounts (record fs { dir = w.1 }) fs.write_queue _ refl (saved-woken zone w.0)
            ∙ sym (append-nil fs.write_queue)))
  ]

  -- What a step and the steps after it account for.
  Accounts-append :
      (fs fs' fs'' : Fs) (asked later : List ZoneHandle) (sent more : List Effect)
      → Accounts fs asked (some (fs', sent))
      → Accounts fs' later (some (fs'', more))
      → Accounts fs (asked ++ later) (some (fs'', sent ++ more))
  Accounts-append fs fs' fs'' asked later sent more h k =
      Perm.trans
        (Perm-of_eq (
          ap (λ x. x ++ fs''.write_queue) (woken-append sent more)
          ∙ append_assoc (woken sent) (woken more) fs''.write_queue))
        (Perm.trans (Perm.append_left (woken sent) k) (
          Perm.trans (Perm-of_eq (sym (append_assoc (woken sent) fs'.write_queue later))) (
            Perm.trans (Perm.append_right later h)
              (Perm-of_eq (append_assoc fs.write_queue asked later)))))

  or_nothing-Accounts :
      (fs : Fs) (asked : List ZoneHandle) (o : Option (Fs × List Effect))
      → Accounts fs asked o
      → Accounts fs asked (some (elim o [ none ↦ (fs, []) | some after ↦ after ]))
  or_nothing-Accounts fs asked none h =
      subst (λ x. Perm fs.write_queue (fs.write_queue ++ x)) h
        (Perm-of_eq (sym (append-nil fs.write_queue)))
  or_nothing-Accounts fs asked (some after) h = h

  step-Accounts :
      (c : Circumstances) (call : StoreCall) (fs : Fs)
      → Accounts fs (asking call) (some (fs_step hash deserialize c call fs))
  unfolding fs_step
  step-Accounts c call fs =
      or_nothing-Accounts fs (asking call) (fs_handle hash deserialize c call fs)
        (handle-Accounts c call fs)

  -- The file store loses no request to write, and invents none: after any calls, those included
  -- whose worker panics, the zones that were told to save and those that still wait are, in some
  -- order and as often, those that waited at first and those that have asked since.
  pub requests_kept :
      (calls : List (Circumstances × StoreCall)) (fs : Fs)
      → let (fs', sent) = fs_loop hash deserialize calls fs in
        Perm (woken sent ++ fs'.write_queue) (fs.write_queue ++ asking_all calls)
  unfolding fs_loop
  requests_kept [] fs = Perm-of_eq (sym (append-nil fs.write_queue))
  requests_kept ((c, call) ∷ calls) fs =
      let (fs', sent) = fs_step hash deserialize c call fs in
      let (fs'', more) = fs_loop hash deserialize calls fs' in
      Accounts-append fs fs' fs'' (asking call) (asking_all calls) sent more
        (step-Accounts c call fs) (requests_kept calls fs')
