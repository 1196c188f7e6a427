-- ===== src/Zone/Persistence/Rules.antt =====
-- What a method of a ready zone owes the store, and the rules by which handlers are put together.
use qumulus.Base.{
  ℕ, ◌+◌, ◌≤◌, ◌≡◌, ◌≢◌, refl, sym, subst, ◌⊎◌, inl, inr, Bool, true, false, Option, none, some,
  List, [], ◌∷◌, ◌++◌, arith,
}
use qumulus.Listener.{Listener}
use qumulus.Zone.Calls.{dirty, send_all}
use qumulus.Zone.Data.{
  Effect, request_load, store_load, request_write, store_write, Zone, M, ◌>>=◌, ◌>>◌, pure, get,
  modify, send, panic, set_state, when, prepend,
}
use qumulus.Zone.State

abbrev pub is_request : Effect → ℕ
is_request request_write = 1
is_request _ = 0

abbrev pub is_write : Effect → ℕ
is_write (store_write stored) = 1
is_write _ = 0

abbrev pub is_load_request : Effect → ℕ
is_load_request request_load = 1
is_load_request _ = 0

abbrev pub is_store_load : Effect → ℕ
is_store_load store_load = 1
is_store_load _ = 0

-- The requests to be loaded, and the loads from the store, among what a zone sends.
abbrev pub load_requests : List Effect → ℕ
load_requests [] = 0
load_requests (e ∷ sent) = is_load_request e + load_requests sent

abbrev pub store_loads : List Effect → ℕ
store_loads [] = 0
store_loads (e ∷ sent) = is_store_load e + store_loads sent

-- The requests to write, and the writes, among what a zone sends.
abbrev pub requests : List Effect → ℕ
requests [] = 0
requests (e ∷ sent) = is_request e + requests sent

abbrev pub store_writes : List Effect → ℕ
store_writes [] = 0
store_writes (e ∷ sent) = is_write e + store_writes sent

-- With `q` requests and `f` writes not yet answered by the store: a dirty zone waits for one
-- answer, a writing zone for the end of its write, and any other for none.
abbrev pub Agrees : ℕ → ℕ → ℕ → Type 0
Agrees state q f =
    ((state ≤ State.active) × (q ≡ 0) × (f ≡ 0))
    ⊎ (((state ≡ State.dirty) × (q + f ≡ 1)) ⊎ ((state ≡ State.writing) × (q ≡ 0) × (f ≡ 1)))

-- With `l` requests to be loaded and `d` loads from the store not yet answered: a zone that waits
-- for either waits for one answer, and any other for none.
abbrev pub Loads : ℕ → ℕ → ℕ → Type 0
Loads state l d =
    ((state ≡ State.init) × (l ≡ 1) × (d ≡ 0))
    ⊎ (((state ≡ State.loading) × (l ≡ 0) × (d ≡ 1))
        ⊎ ((state ≢ State.init) × (state ≢ State.loading) × (l ≡ 0) × (d ≡ 0)))

abbrev pub IsReady : ℕ → Type 0
IsReady state = (State.active ≤ state) × (state ≤ State.writing)

-- A method does not panic, and what it leaves satisfies `P`.
abbrev pub Returns :
    {A : Type 0} → Option (A × Zone × List Effect) → (Zone → List Effect → Type 0) → Type 0
Returns none P = ⊥
Returns (some (a, z, sent)) P = P z sent

-- What is sent settles with the store.
abbrev pub Settles : ℕ → Zone → List Effect → Type 0
Settles state z sent =
    IsReady z.state
    × (load_requests sent ≡ 0)
    × (store_loads sent ≡ 0)
    × ((q f : ℕ) → Agrees state q f → Agrees z.state (q + requests sent) (f + store_writes sent))

-- A method that runs in any ready zone.
pub record IsSafe {A : Type 0} (m : M A) : Type 0 where
  pub run : (z : Zone) → IsReady z.state → Returns (m z) (Settles z.state)

pub requests-append : (xs ys : List Effect) → requests (xs ++ ys) ≡ requests xs + requests ys
requests-append [] ys = omega arith
requests-append (e ∷ xs) ys = omega (arith, requests-append xs ys)

pub store_writes-append :
    (xs ys : List Effect) → store_writes (xs ++ ys) ≡ store_writes xs + store_writes ys
store_writes-append [] ys = omega arith
store_writes-append (e ∷ xs) ys = omega (arith, store_writes-append xs ys)

pub load_requests-append :
    (xs ys : List Effect) → load_requests (xs ++ ys) ≡ load_requests xs + load_requests ys
load_requests-append [] ys = omega arith
load_requests-append (e ∷ xs) ys = omega (arith, load_requests-append xs ys)

pub store_loads-append :
    (xs ys : List Effect) → store_loads (xs ++ ys) ≡ store_loads xs + store_loads ys
store_loads-append [] ys = omega arith
store_loads-append (e ∷ xs) ys = omega (arith, store_loads-append xs ys)

pub Agrees-cong : {s q q' f f' : ℕ} → q ≡ q' → f ≡ f' → Agrees s q f → Agrees s q' f'
Agrees-cong e h a = rw (← e, ← h) a

prepend-Settles :
    {B : Type 0} (state : ℕ) (z : Zone) (sent : List Effect) (o : Option (B × Zone × List Effect))
    → Settles state z sent
    → Returns o (Settles z.state)
    → Returns (prepend sent o) (Settles state)
prepend-Settles state z sent none h k = k
prepend-Settles state z sent (some (b, z', more)) h k = (
  k.0,
  omega (arith, load_requests-append sent more, h.1, k.1),
  omega (arith, store_loads-append sent more, h.2, k.2),
  λ q f a.
      Agrees-cong (omega (arith, requests-append sent more))
        (omega (arith, store_writes-append sent more)) (k.3 _ _ (h.3 q f a)),
)

bind-Settles :
    {A B : Type 0} (state : ℕ) (o : Option (A × Zone × List Effect)) (f : A → M B)
    → Returns o (Settles state)
    → ((a : A) → IsSafe (f a))
    → Returns (elim o [ none ↦ none | some (a, z', sent) ↦ prepend sent (f a z') ]) (Settles state)
bind-Settles state none f h k = h
bind-Settles state (some (a, z', sent)) f h k =
    prepend-Settles state z' sent (f a z') h ((k a).run z' h.0)

-- The rules by which the handlers are put together.
pub bind-IsSafe :
    {A B : Type 0} (m : M A) (f : A → M B) → IsSafe m → ((a : A) → IsSafe (f a)) → IsSafe (m >>= f)
bind-IsSafe m f h k = record { run = λ z r. bind-Settles z.state (m z) f (h.run z r) k }

pub then-IsSafe : {B : Type 0} (m : M (Unit {0})) (k : M B) → IsSafe m → IsSafe k → IsSafe (m >> k)
then-IsSafe m k h i = bind-IsSafe m (λ _. k) h (λ _. i)

Settles-refl : (z z' : Zone) → z'.state ≡ z.state → IsReady z.state → Settles z.state z' []
Settles-refl z z' e r =
    (rw e r, refl, refl, λ q f a. rw e (Agrees-cong (omega arith) (omega arith) a))

-- Effects that the store does not see.
abbrev pub IsQuiet : List Effect → Type 0
IsQuiet sent =
    (requests sent ≡ 0)
    × (store_writes sent ≡ 0)
    × (load_requests sent ≡ 0)
    × (store_loads sent ≡ 0)

pub IsQuiet-append : (xs ys : List Effect) → IsQuiet xs → IsQuiet ys → IsQuiet (xs ++ ys)
IsQuiet-append xs ys h k = (
  omega (arith, requests-append xs ys),
  omega (arith, store_writes-append xs ys),
  omega (arith, load_requests-append xs ys),
  omega (arith, store_loads-append xs ys),
)

Settles-quiet :
    (z z' : Zone) (sent : List Effect)
    → z'.state ≡ z.state
    → IsReady z.state
    → IsQuiet sent
    → Settles z.state z' sent
Settles-quiet z z' sent e r quiet = (
  rw e r,
  quiet.2,
  quiet.3,
  λ q f a. rw e (Agrees-cong (omega (arith, quiet.0)) (omega (arith, quiet.1)) a),
)

pub pure-IsSafe : {A : Type 0} (a : A) → IsSafe (pure a)
unfolding pure
pure-IsSafe a = record { run = λ z r. Settles-refl z z refl r }

pub get-IsSafe : IsSafe get
unfolding get
get-IsSafe = record { run = λ z r. Settles-refl z z refl r }

pub modify-IsSafe : (f : Zone → Zone) → ((z : Zone) → (f z).state ≡ z.state) → IsSafe (modify f)
unfolding modify
modify-IsSafe f h = record { run = λ z r. Settles-refl z (f z) (h z) r }

pub send-IsSafe : (e : Effect) → IsQuiet (e ∷ []) → IsSafe (send e)
unfolding send
send-IsSafe e quiet = record { run = λ z r. Settles-quiet z z (e ∷ []) refl r quiet }

pub send_all-IsSafe :
    (ls : List Listener) (sent : List Effect) → IsQuiet sent → IsSafe (send_all (ls, sent))
unfolding send_all
send_all-IsSafe ls sent quiet = record {
  run = λ z r. Settles-quiet z (record z { listeners = ls }) sent refl r quiet;
}

pub when-IsSafe : (b : Bool) (m : M (Unit {0})) → IsSafe m → IsSafe (when b m)
unfolding when
when-IsSafe true m h = h
when-IsSafe false m h = pure-IsSafe tt

dirty-active :
    (z : Zone)
    → z.state ≡ State.active
    → dirty z ≡ some (tt, record z { state = State.dirty }, request_write ∷ [])
unfolding dirty get pure send set_state panic
dirty-active z h = ground arith

dirty-dirty : (z : Zone) → z.state ≡ State.dirty → dirty z ≡ some (tt, z, [])
unfolding dirty get pure send set_state panic
dirty-dirty z h = ground arith

dirty-writing :
    (z : Zone) → z.state ≡ State.writing → dirty z ≡ some (tt, record z { state = State.dirty }, [])
unfolding dirty get pure send set_state panic
dirty-writing z h = ground arith

ready_cases : (s : ℕ) → IsReady s → (s ≡ State.active) ⊎ ((s ≡ State.dirty) ⊎ (s ≡ State.writing))
ready_cases s r = ground arith

returned :
    {A : Type 0} {o o' : Option (A × Zone × List Effect)} (P : Zone → List Effect → Type 0)
    → o ≡ o'
    → Returns o' P
    → Returns o P
returned P e h = subst (λ x. Returns x P) (sym e) h

-- A change asks for a write, unless one is asked for already.
pub dirty-IsSafe : IsSafe dirty
dirty-IsSafe = record {
  run = λ z r. elim (ready_cases z.state r) [
    | inl e ↦ returned _ (dirty-active z e) (omega arith, refl, refl, λ q f a. omega arith)
    | inr (inl e) ↦ returned _ (dirty-dirty z e) (Settles-refl z z refl r)
    | inr (inr e) ↦ returned _ (dirty-writing z e) (omega arith, refl, refl, λ q f a. omega arith)
  ];
}
