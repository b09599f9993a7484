-- ===== src/Registry/Clock.antt =====
-- `_now`, `_mono`, `_principal`, `_own_host` and the transactions of console/registry.py.
--
-- A method takes the registry, and returns its result with the registry that it leaves: the times
-- that were read stay, and the database is the committed one, or the old one after a rollback.
-- That COMMIT itself fails is not modelled.
use nexus_infra.Base.{
  ℕ, String, Bool, true, false, not, ◌&&◌, List, [], ◌∷◌, Option, none, some, leb, ltb, str_eq,
  is_some,
}
use nexus_infra.Base.Result.{Result, ok, err, failure_with, ◌>>=◌, ◌>>◌, require}
use nexus_infra.Base.Strings.{codes, length, mem}
use nexus_infra.Json.Value.{Value}
use nexus_infra.Registry.State.{Principal, Config, Db, Registry, host_row}
use nexus_infra.Registry.Requests.{bounded_time}

-- What the two clocks return when they are read.
pub record Clock : Type 0 where
  pub wall : Value
  pub mono : Value

abbrev before : ℕ → Option ℕ → Bool
before value none = false
before value (some last) = ltb value last

-- The common body of `_now` and `_mono`.
unfoldable pub read_clock : Value → Option ℕ → Result ℕ
read_clock reading last = do
  value ← bounded_time reading "clock-unavailable" 500
  require (not (before value last)) (failure_with "clock-unavailable" 500)
  ok value

abbrev pub Call : Type 0 → Type 0
Call A = Registry → Result A × Registry

-- Goes on with the value of a check that changes nothing.
unfoldable pub after : {A B : Type 0} → Result A → (A → Call B) → Call B
after (ok a) k r = k a r
after (err e) k r = (err e, r)

-- `now = self._now()`
unfoldable pub with_now : {B : Type 0} → Clock → (ℕ → Call B) → Call B
unfolding after read_clock
with_now clock k r =
    after (read_clock clock.wall r.last_wall) (λ now r'. k now (record r' { last_wall = some now }))
      r

-- `mono = self._mono()`
unfoldable pub with_mono : {B : Type 0} → Clock → (ℕ → Call B) → Call B
unfolding after read_clock
with_mono clock k r =
    after (read_clock clock.mono r.last_mono)
      (λ mono r'. k mono (record r' { last_mono = some mono })) r

-- COMMIT of the database that the body leaves, or ROLLBACK and the exception.
unfoldable pub settle : {A : Type 0} → Registry → Result (A × Db) → Result A × Registry
settle r (ok (a, db)) = (ok a, record r { db = db })
settle r (err e) = (err e, r)

unfoldable pub transaction : {A : Type 0} → (Registry → Result (A × Db)) → Call A
unfolding settle
transaction body r = settle r (body r)

abbrev pub roles : List String
roles = "controller" ∷ "host" ∷ "reader" ∷ "ingress" ∷ []

abbrev known_host : Config → Option String → Bool
known_host c none = true
known_host c (some h) = is_some (host_row c h)

-- `_principal`
unfoldable pub principal : Config → Principal → List String → Result (Unit {0})
principal c p allowed = do
  let n = length (codes p.identity)
  require (ltb 0 n && leb n 512 && mem p.role roles) (failure_with "invalid-principal" 403)
  require (known_host c p.host_id) (failure_with "invalid-principal" 403)
  require (mem p.role allowed) (failure_with "forbidden" 403)

abbrev same_host : Option String → String → Bool
same_host none h = false
same_host (some g) h = str_eq g h

-- `_own_host`
unfoldable pub own_host : Principal → String → Result (Unit {0})
own_host p h = require (same_host p.host_id h) (failure_with "host-mismatch" 403)

-- The check of the caller with which every method begins.
unfoldable pub with_principal : {B : Type 0} → Principal → List String → Call B → Call B
unfolding after principal
with_principal p allowed k r = after (principal r.config p allowed) (λ _. k) r
