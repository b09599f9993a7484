-- ===== src/Registry/Routing.antt =====
-- The tables of `routes` of console/registry.py.
use Prim.Native.Nat.{min}
use native.Mathlib.Nat.{le_refl, le_trans}
use nexus_infra.Base.{
  ℕ, ◌+◌, ◌≤◌, String, true, List, [], ◌∷◌, Option, none, some, ◌≡◌, arith, inl, inr, Option-cases,
  subst,
}
use nexus_infra.Base.Result.{ok, >>=-eq-ok, ok-injective, require, failure}
use nexus_infra.Registry.State.{
  Principal, Route, Placement, Instance, ObservationRow, Registry, placement, instance_row,
  observation_row,
}
use nexus_infra.Registry.Evidence.{fresh, ready_for, within_age}
use nexus_infra.Base.Strings.{is_hex32}
use nexus_infra.Registry.Clock.{Clock, read_clock}
use nexus_infra.Registry.Returns.{
  at_wall, at_mono, after-returns, with_now-returns, with_mono-returns, with_principal-returns,
}
use nexus_infra.Registry.Views.{
  route_ttl, Served, expiry_of, serve, backend_of, Table, sooner, route_loop, routes,
}

-- The evidence for one row of the table.
pub record Backed (r : Registry) (t : Route) (now mono : ℕ) (until : ℕ) (s : Served) : Type 0 where
  pub target : Placement
  pub placed_at : placement r.db t.workload_id ≡ some target
  pub published : target.published ≡ true
  pub incumbent : Instance
  pub found : instance_row r.db target.instance_id ≡ some incumbent
  pub observation : ObservationRow
  pub observed : observation_row r.db target.instance_id ≡ some observation
  pub ready : ready_for r (some observation) incumbent.host_id now mono (t.service_id ∷ []) ≡ true
  pub names :
      (s.backend.instance_id ≡ target.instance_id)
      × (s.backend.generation ≡ target.generation)
      × (s.backend.host_id ≡ incumbent.host_id)
      × (s.backend.address ≡ observation.payload.endpoint_address)
  pub lasts :
      (d : ℕ)
      → now + d ≤ until
      → (within_age (now + d) observation.payload.observed_at ≡ true)
        × (within_age (mono + d) observation.received_mono ≡ true)

-- A row has no backend, or one that is backed.
abbrev pub RowOk : Registry → ℕ → ℕ → ℕ → Route × Option Served → Type 0
RowOk r now mono until (t, none) = Unit
RowOk r now mono until (t, some s) = Backed r t now mono until s

abbrev pub AllRows : Registry → ℕ → ℕ → ℕ → List (Route × Option Served) → Type 0
AllRows r now mono until [] = Unit
AllRows r now mono until (x ∷ xs) = RowOk r now mono until x × AllRows r now mono until xs

-- Evidence that is fresh now is fresh until its expiry.
fresh-lasts :
    (r : Registry) (o : ObservationRow) (host_id : String) (now mono until d : ℕ)
    → fresh r (some o) host_id now mono ≡ true
    → until ≤ expiry_of o now mono
    → now + d ≤ until
    → (within_age (now + d) o.payload.observed_at ≡ true)
      × (within_age (mono + d) o.received_mono ≡ true)
unfolding fresh expiry_of
fresh-lasts r o host_id now mono until d h bound before = (ground arith, ground arith)

-- `Backed`, with the instance and the observation that the code has read.
serve-lasts :
    (r : Registry) (t : Route) (p : Placement) (i : Instance) (o : ObservationRow) (now mono : ℕ)
    (s : Served)
    → serve r t p i (some o) now mono ≡ ok (some s)
    → (ready_for r (some o) i.host_id now mono (t.service_id ∷ []) ≡ true)
      × (s.backend.instance_id ≡ p.instance_id)
      × (s.backend.generation ≡ p.generation)
      × (s.backend.host_id ≡ i.host_id)
      × (s.backend.address ≡ o.payload.endpoint_address)
      × (s.expiry ≡ expiry_of o now mono)
unfolding serve
serve-lasts r t p i o now mono s h =
    (ground arith, ground arith, ground arith, ground arith, ground arith, ground arith)

ready_for-fresh :
    (r : Registry) (o : ObservationRow) (h : String) (now mono : ℕ) (needed : List String)
    → ready_for r (some o) h now mono needed ≡ true
    → fresh r (some o) h now mono ≡ true
unfolding ready_for
ready_for-fresh r o h now mono needed e = ground arith

served-Backed :
    (r : Registry) (t : Route) (p : Placement) (i : Instance) (now mono until : ℕ) (s : Served)
    → placement r.db t.workload_id ≡ some p
    → p.published ≡ true
    → instance_row r.db p.instance_id ≡ some i
    → serve r t p i (observation_row r.db p.instance_id) now mono ≡ ok (some s)
    → until ≤ s.expiry
    → Backed r t now mono until s
served-Backed r t p i now mono until s at shown found h bound =
    elim (Option-cases (observation_row r.db p.instance_id)) [
      | inl gone ↦ absurd (none-served (rw gone at h))
      | inr (o, seen) ↦
          let (ready, id, generation, host, address, expiry) =
            serve-lasts r t p i o now mono s (rw seen at h) in
          record {
            target = p;
            placed_at = at;
            published = shown;
            incumbent = i;
            found = found;
            observation = o;
            observed = seen;
            ready = ready;
            names = (id, generation, host, address);
            lasts = λ d before.
                fresh-lasts r o i.host_id now mono until d
                  (ready_for-fresh r o i.host_id now mono _ ready) (rw (← expiry) bound) before;
          }
    ]
  where
    none-served : serve r t p i none now mono ≡ ok (some s) → ⊥
    none-served e = unfold serve in cc e

backend_of-Backed :
    (r : Registry) (t : Route) (now mono until : ℕ) (s : Served)
    → backend_of r t (placement r.db t.workload_id) now mono ≡ ok (some s)
    → until ≤ s.expiry
    → Backed r t now mono until s
unfolding backend_of
backend_of-Backed r t now mono until s h bound =
    elim (Option-cases (placement r.db t.workload_id)) [
      | inl gone ↦ absurd (ground arith)
      | inr (p, at) ↦ elim (Option-cases (instance_row r.db p.instance_id)) [
        | inl lost ↦ absurd (ground arith)
        | inr (i, found) ↦
            served-Backed r t p i now mono until s at (ground arith) found (ground arith) bound
      ]
    ]

earlier :
    {r : Registry} {t : Route} {now mono u u' : ℕ} {s : Served}
    → u' ≤ u
    → Backed r t now mono u s
    → Backed r t now mono u' s
earlier before b = record {
  target = b.target;
  placed_at = b.placed_at;
  published = b.published;
  incumbent = b.incumbent;
  found = b.found;
  observation = b.observation;
  observed = b.observed;
  ready = b.ready;
  names = b.names;
  lasts = λ d e. b.lasts d (le_trans e before);
}

rows-earlier :
    (r : Registry) (now mono u u' : ℕ) (rows : List (Route × Option Served))
    → u' ≤ u
    → AllRows r now mono u rows
    → AllRows r now mono u' rows
rows-earlier r now mono u u' [] before h = tt
rows-earlier r now mono u u' ((t, none) ∷ rows) before h =
    (tt, rows-earlier r now mono u u' rows before h.1)
rows-earlier r now mono u u' ((t, some s) ∷ rows) before h =
    (earlier before h.0, rows-earlier r now mono u u' rows before h.1)

row-ok :
    (r : Registry) (t : Route) (b : Option Served) (now mono u : ℕ)
    → backend_of r t (placement r.db t.workload_id) now mono ≡ ok b
    → RowOk r now mono (sooner b u) (t, b)
row-ok r t none now mono u h = tt
row-ok r t (some s) now mono u h = backend_of-Backed r t now mono (min s.expiry u) s h (omega arith)

sooner-le : (b : Option Served) (u : ℕ) → sooner b u ≤ u
sooner-le none u = omega arith
sooner-le (some s) u = omega arith

route_loop-backed :
    (r : Registry) (ts : List Route) (now mono : ℕ) (table : Table)
    → route_loop r ts now mono ≡ ok table
    → AllRows r now mono table.valid_until table.routes × (table.valid_until ≤ now + route_ttl)
unfolding route_loop
route_loop-backed r [] now mono table h = elim-empty table h
  where
    elim-empty :
        (x : Table)
        → ok (record { valid_until = now + route_ttl; routes = [] }) ≡ ok x
        → AllRows r now mono x.valid_until x.routes × (x.valid_until ≤ now + route_ttl)
    elim-empty x e =
        subst (λ y. AllRows r now mono y.valid_until y.routes × (y.valid_until ≤ now + route_ttl))
          (ok-injective e) (tt, le_refl _)
route_loop-backed r (t ∷ ts) now mono table h =
    let (b, found, rest_ok) =
      >>=-eq-ok (backend_of r t (placement r.db t.workload_id) now mono) (λ _. _) h in
    let (rest, looped, made) = >>=-eq-ok (route_loop r ts now mono) (λ _. _) rest_ok in
    let (rows, ttl) = route_loop-backed r ts now mono rest looped in
    subst (λ y. AllRows r now mono y.valid_until y.routes × (y.valid_until ≤ now + route_ttl))
      (ok-injective made)
      (
        (
          row-ok r t b now mono rest.valid_until found,
          rows-earlier r now mono rest.valid_until _ rest.routes (sooner-le b rest.valid_until)
              rows,
        ),
        le_trans (sooner-le b rest.valid_until) ttl,
      )

-- A table that `routes` returns was made from two readings of the clocks. Every backend in it is the
-- instance of the workload's published placement, with its generation, its host and the address that
-- it reported. At those times there was fresh evidence that it is running and ready for the service,
-- and that evidence does not outlive its greatest age on either clock while the table is valid. The
-- table is valid for at most the time to live of a route.
pub routes_backed :
    (clock : Clock) (p : Principal) (nonce : String) (r : Registry) (table : Table)
    → (routes clock p nonce r).0 ≡ ok table
    → (now : ℕ) × (mono : ℕ) × (read_clock clock.wall r.last_wall ≡ ok now)
      × (read_clock clock.mono r.last_mono ≡ ok mono)
      × AllRows (at_mono (at_wall r now) mono) now mono table.valid_until table.routes
      × (table.valid_until ≤ now + route_ttl)
unfolding routes
routes_backed clock p nonce r table h =
    let (_, h₁, _) = with_principal-returns p ("ingress" ∷ "controller" ∷ []) _ r table h in
    let (_, _, h₂, _) =
      after-returns (require (is_hex32 nonce) (failure "invalid-nonce")) _ r table h₁ in
    let (now, wall, h₃, _) = with_now-returns clock _ r table h₂ in
    let (mono, elapsed, h₄, _) = with_mono-returns clock _ (at_wall r now) table h₃ in
    let (rows, ttl) =
      route_loop-backed (at_mono (at_wall r now) mono) r.config.routes now mono table h₄ in
    (now, mono, wall, elapsed, rows, ttl)
