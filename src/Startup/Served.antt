-- ===== src/Startup/Served.antt =====
-- When src/main.rs comes to serve, and in which order it starts its processes.
use qumulus.Base.{
  Bool-cases, ℕ, ◌+◌, ◌<◌, ◌≡◌, refl, sym, ◌∙◌, ap, ◌↔◌, Bool, true, false, inl, inr, Option, none,
  some, List, [], ◌∷◌, ◌++◌, map, arith,
}
use qumulus.Cluster.{Replica, peer_addr, monitor_addr, shifted}
use qumulus.Startup.{
  Started, Outcome, returns, panics, after, unwrap, add_all, listen, add_replica, monitor, console,
  store_process, manager_process, cluster_process, load_root, replicas_of, main, with_id,
  with_addresses, new, spawn_store, spawn_manager, spawn_cluster,
}
use qumulus.Text.{Text}

abbrev pub monitor_of : Replica → Replica
monitor_of id = record id { port = id.port + 200 }

-- Everything that is started, in its order.
abbrev pub all_of : Replica → List Replica → List Started
all_of id replicas =
    store_process
    ∷ manager_process
    ∷ cluster_process
    ∷ load_root
    ∷ listen id
    ∷ (map add_replica replicas ++ monitor (monitor_of id) ∷ console ∷ [])

add_all-returns :
    (replicas : List Replica) (started : List Started)
    → add_all replicas (returns started) ≡ returns (map add_replica replicas ++ started)
add_all-returns [] started = refl
add_all-returns (r ∷ replicas) started =
    ap (after (add_replica r)) (add_all-returns replicas started)

after-returns :
    (e : Started) (o : Outcome) (started : List Started)
    → after e o ≡ returns started
    → (rest : List Started) × (o ≡ returns rest) × (started ≡ e ∷ rest)
after-returns e (returns rest) started h = (rest, refl, cc)
after-returns e (panics rest) started h = cc

unwrap-returns {ℓ} :
    {A : Type ℓ} (o : Option A) (f : A → Outcome) (started : List Started)
    → unwrap o f ≡ returns started
    → (a : A) × (o ≡ some a) × (f a ≡ returns started)
unwrap-returns none f started h = cc
unwrap-returns (some a) f started h = (a, refl, h)

shifted-some :
    (n : ℕ) (r r' : Replica)
    → shifted n r ≡ some r'
    → (r.port + n < 65536) × (r' ≡ record r { port = r.port + n })
unfolding shifted
shifted-some n r r' h = ground arith

shifted_fits :
    (n : ℕ) (r : Replica) → r.port + n < 65536 → shifted n r ≡ some (record r { port = r.port + n })
unfolding shifted
shifted_fits n r h = ground arith

returns-eq : (xs ys : List Started) → returns xs ≡ returns ys → ys ≡ xs
returns-eq xs ys h = cc

-- Each process finds the receiver of its channel.
module _ (parse : Text → Option Replica) (cluster : Option Text) (id : Replica) where
  no_directory : with_id parse false cluster id ≡ panics []
  unfolding spawn_store new
  no_directory = refl

  all_spawned :
      with_id parse true cluster id
      ≡ after store_process (
          after manager_process
            (after cluster_process (after load_root (with_addresses parse cluster id))))
  unfolding spawn_store spawn_manager spawn_cluster new
  all_spawned = refl

module _ (parse : Text → Option Replica) (ready : Bool) (cluster : Option Text)
    (name text : Text) where
  abbrev pub IsServing : List Started → Type 0
  IsServing started =
      (id : Replica) × (replicas : List Replica) × (parse text ≡ some id)
      × (ready ≡ true)
      × (id.port + 200 < 65536)
      × (replicas_of parse cluster ≡ some replicas)
      × (started ≡ all_of id replicas)

  -- What is started before the addresses are printed.
  abbrev before_serving : List Started → List Started
  before_serving rest = store_process ∷ manager_process ∷ cluster_process ∷ load_root ∷ rest

  served_from :
      (id : Replica) (started : List Started)
      → with_addresses parse cluster id ≡ returns started
      → (replicas : List Replica) × (id.port + 200 < 65536)
        × (replicas_of parse cluster ≡ some replicas)
        × (before_serving started ≡ all_of id replicas)
  served_from id started h =
      let p = unwrap-returns (peer_addr id) _ started h in
      let m = unwrap-returns (monitor_addr id) _ started p.2 in
      let fits = shifted-some 200 id m.0 m.1 in
      let l = after-returns (listen id) _ started m.2 in
      let r = unwrap-returns (replicas_of parse cluster) _ l.0 l.1 in
      let all = add_all-returns r.0 (monitor m.0 ∷ console ∷ []) in
      (
        r.0,
        fits.0,
        r.1,
        ap before_serving (
            l.2
            ∙ ap (λ x. listen id ∷ x) (returns-eq _ l.0 (sym all ∙ r.2))
            ∙ ap (λ x. listen id ∷ (map add_replica r.0 ++ monitor x ∷ console ∷ [])) fits.1),
      )

  serves_from :
      (id : Replica) (replicas : List Replica)
      → id.port + 200 < 65536
      → replicas_of parse cluster ≡ some replicas
      → with_addresses parse cluster id
        ≡ returns (listen id ∷ (map add_replica replicas ++ monitor (monitor_of id) ∷ console ∷ []))
  serves_from id replicas fits e =
      rw (shifted_fits 100 id (omega arith), shifted_fits 200 id fits, e)
        (ap (after (listen id)) (add_all-returns replicas (monitor (monitor_of id) ∷ console ∷ [])))

  started_from :
      (id : Replica) (started : List Started)
      → with_id parse ready cluster id ≡ returns started
      → (rest : List Started) × (ready ≡ true)
        × (with_addresses parse cluster id ≡ returns rest)
        × (started ≡ before_serving rest)
  started_from id started h = elim (Bool-cases ready) [
    | inl ok ↦
        let all =
          sym (all_spawned parse cluster id) ∙ ap (λ b. with_id parse b cluster id) (sym ok) ∙ h in
        let a = after-returns store_process _ started all in
        let b = after-returns manager_process _ a.0 a.1 in
        let c = after-returns cluster_process _ b.0 b.1 in
        let d = after-returns load_root (with_addresses parse cluster id) c.0 c.1 in
        (
          d.0,
          ok,
          d.1,
          a.2
              ∙ ap (λ x. store_process ∷ x)
                  (b.2 ∙ ap (λ x. manager_process ∷ x) (c.2 ∙ ap (λ x. cluster_process ∷ x) d.2)),
        )
    | inr missing ↦
        let none_left =
          sym (no_directory parse cluster id)
          ∙ ap (λ b. with_id parse b cluster id) (sym missing)
          ∙ h in
        cc
  ]

  -- The program serves exactly when its ID is an address, its store has a directory, its ports are
  -- ports and every replica that it is given is an address. Then it starts the processes, has the
  -- root zone loaded, listens for clients, adds the replicas in their order, and starts the monitor
  -- and the console.
  pub main_serves :
      (started : List Started)
      → (main parse ready cluster (name ∷ text ∷ []) ≡ returns started) ↔ IsServing started
  unfolding main spawn_store spawn_manager spawn_cluster new shifted
  main_serves started = (
    λ h.
        let i = unwrap-returns (parse text) _ started h in
        let s = started_from i.0 started i.2 in
        let r = served_from i.0 s.0 s.2 in (i.0, r.0, i.1, s.1, r.1, r.2, s.3 ∙ r.3),
    λ s.
        rw (s.2, s.3, s.6)
          (all_spawned parse cluster s.0
            ∙ ap
                (λ o.
                  after store_process
                    (after manager_process (after cluster_process (after load_root o))))
                (serves_from s.0 s.1 s.4 s.5)),
  )
