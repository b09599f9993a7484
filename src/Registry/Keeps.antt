-- ===== src/Registry/Keeps.antt =====
-- How a call may change the database, whether it returns or raises: one rule for each way in which
-- the methods of the registry are put together.
use nexus_infra.Base.{ℕ, String, List, some, ◌≡◌, refl}
use nexus_infra.Base.Result.{Result, ok, err}
use nexus_infra.Registry.State.{Principal, Config, Db, Registry}
use nexus_infra.Registry.Clock.{
  Clock, Call, after, settle, principal, with_principal, with_now, with_mono, transaction,
  read_clock,
}

-- A relation of the database before and after, under the configuration and the epoch.
abbrev pub Change : Type 1
Change = Config → String → Db → Db → Type 0

abbrev pub Changes : Change → Registry → Registry → Type 0
Changes R r s = (s.config ≡ r.config) × (s.epoch ≡ r.epoch) × R r.config r.epoch r.db s.db

pub record Follows {A : Type 0} (R : Change) (m : Call A) : Type 0 where
  pub at : (r : Registry) → Changes R r (m r).1

abbrev pub Reflexive : Change → Type 0
Reflexive R = (c : Config) (e : String) (db : Db) → R c e db db

module _ {A : Type 0} (R : Change) (still : Reflexive R) where
  settle-Changes :
      (r : Registry) (b : Result (A × Db))
      → ((a : A) (db : Db) → b ≡ ok (a, db) → R r.config r.epoch r.db db)
      → Changes R r (settle r b).1
  unfolding settle
  settle-Changes r (ok (a, db)) moves = (refl, refl, moves a db refl)
  settle-Changes r (err e) moves = (refl, refl, still r.config r.epoch r.db)

  pub Follows-transaction :
      (body : Registry → Result (A × Db))
      → ((r : Registry) (a : A) (db : Db) → body r ≡ ok (a, db) → R r.config r.epoch r.db db)
      → Follows R (transaction body)
  unfolding transaction
  Follows-transaction body moves = record { at = λ r. settle-Changes r (body r) (moves r) }

  pub Follows-after :
      {B : Type 0} (m : Result A) (k : A → Call B)
      → ((a : A) → m ≡ ok a → Follows R (k a))
      → Follows R (after m k)
  unfolding after
  Follows-after (ok a) k h = h a refl
  Follows-after (err e) k h = record { at = λ r. (refl, refl, still r.config r.epoch r.db) }

module _ {B : Type 0} (R : Change) (still : Reflexive R) where
  after-Changes :
      {A : Type 0} (m : Result A) (k : A → Call B) (r : Registry)
      → ((a : A) → Changes R r (k a r).1)
      → Changes R r (after m k r).1
  unfolding after
  after-Changes (ok a) k r h = h a
  after-Changes (err e) k r h = (refl, refl, still r.config r.epoch r.db)

  pub Follows-now :
      (clock : Clock) (k : ℕ → Call B)
      → ((now : ℕ) → Follows R (k now))
      → Follows R (with_now clock k)
  unfolding with_now
  Follows-now clock k h = record {
    at = λ r.
        after-Changes (read_clock clock.wall r.last_wall)
          (λ now r'. k now (record r' { last_wall = some now })) r
          (λ now. (h now).at (record r { last_wall = some now }));
  }

  pub Follows-mono :
      (clock : Clock) (k : ℕ → Call B)
      → ((mono : ℕ) → Follows R (k mono))
      → Follows R (with_mono clock k)
  unfolding with_mono
  Follows-mono clock k h = record {
    at = λ r.
        after-Changes (read_clock clock.mono r.last_mono)
          (λ mono r'. k mono (record r' { last_mono = some mono })) r
          (λ mono. (h mono).at (record r { last_mono = some mono }));
  }

  pub Follows-principal :
      (p : Principal) (allowed : List String) (k : Call B)
      → Follows R k
      → Follows R (with_principal p allowed k)
  unfolding with_principal
  Follows-principal p allowed k h = record {
    at = λ r. after-Changes (principal r.config p allowed) (λ _. k) r (λ _. h.at r);
  }
