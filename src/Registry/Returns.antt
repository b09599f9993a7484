-- ===== src/Registry/Returns.antt =====
-- How a call that returns has come about, part by part.
use nexus_infra.Base.{ℕ, String, List, some, ◌≡◌, ◌⊎◌, inl, inr, refl, sym, ap, subst, ◌∙◌}
use nexus_infra.Base.Result.{Result, ok, err}
use nexus_infra.Registry.State.{Principal, Db, Registry}
use nexus_infra.Registry.Clock.{
  Clock, Call, after, settle, with_now, with_mono, transaction, read_clock, principal,
  with_principal,
}

abbrev pub at_wall : Registry → ℕ → Registry
at_wall r now = record r { last_wall = some now }

abbrev pub at_mono : Registry → ℕ → Registry
at_mono r mono = record r { last_mono = some mono }

pub after-returns :
    {A B : Type 0} (m : Result A) (k : A → Call B) (r : Registry) (b : B)
    → (after m k r).0 ≡ ok b
    → (a : A) × (m ≡ ok a) × ((k a r).0 ≡ ok b) × ((after m k r).1 ≡ (k a r).1)
unfolding after
after-returns (ok a) k r b h = (a, refl, h, refl)
after-returns (err e) k r b h = cc

module _ {B : Type 0} where
  pub with_now-returns :
      (clock : Clock) (k : ℕ → Call B) (r : Registry) (b : B)
      → (with_now clock k r).0 ≡ ok b
      → (now : ℕ) × (read_clock clock.wall r.last_wall ≡ ok now)
        × ((k now (at_wall r now)).0 ≡ ok b)
        × ((with_now clock k r).1 ≡ (k now (at_wall r now)).1)
  unfolding with_now
  with_now-returns clock k r b h =
      after-returns (read_clock clock.wall r.last_wall) (λ now s. k now (at_wall s now)) r b h

  pub with_mono-returns :
      (clock : Clock) (k : ℕ → Call B) (r : Registry) (b : B)
      → (with_mono clock k r).0 ≡ ok b
      → (mono : ℕ) × (read_clock clock.mono r.last_mono ≡ ok mono)
        × ((k mono (at_mono r mono)).0 ≡ ok b)
        × ((with_mono clock k r).1 ≡ (k mono (at_mono r mono)).1)
  unfolding with_mono
  with_mono-returns clock k r b h =
      after-returns (read_clock clock.mono r.last_mono) (λ mono s. k mono (at_mono s mono)) r b h

  pub with_principal-returns :
      (p : Principal) (allowed : List String) (k : Call B) (r : Registry) (b : B)
      → (with_principal p allowed k r).0 ≡ ok b
      → (principal r.config p allowed ≡ ok tt)
        × ((k r).0 ≡ ok b)
        × ((with_principal p allowed k r).1 ≡ (k r).1)
  unfolding with_principal
  with_principal-returns p allowed k r b h =
      let (u, passed, returned, same) =
        after-returns (principal r.config p allowed) (λ _. k) r b h in
      (passed, returned, same)

  settle-returns :
      (r : Registry) (m : Result (B × Db)) (b : B)
      → (settle r m).0 ≡ ok b
      → (db : Db) × (m ≡ ok (b, db)) × ((settle r m).1.db ≡ db)
  unfolding settle
  settle-returns r (ok (a, db)) b h = (db, cc, refl)
  settle-returns r (err e) b h = cc

  pub transaction-returns :
      (body : Registry → Result (B × Db)) (r : Registry) (b : B)
      → (transaction body r).0 ≡ ok b
      → (db : Db) × (body r ≡ ok (b, db)) × ((transaction body r).1.db ≡ db)
  unfolding transaction
  transaction-returns body r b h = settle-returns r (body r) b h

-- A call that reads both clocks before its transaction.
abbrev pub timed :
    {Q A : Type 0}
    → Principal
    → List String
    → Result Q
    → Clock
    → (Q → ℕ → ℕ → Registry → Result (A × Db))
    → Call A
timed p allowed m clock body =
    with_principal p allowed
      (after m λ q. with_now clock λ now. with_mono clock λ mono. transaction (body q now mono))

-- What such a call has read, and what it has committed.
pub record Timed {Q A : Type 0} (m : Result Q) (clock : Clock)
    (body : Q → ℕ → ℕ → Registry → Result (A × Db)) (r : Registry) (db : Db) : Type 0 where
  pub request : Q
  pub valid : m ≡ ok request
  pub now : ℕ
  pub wall_read : read_clock clock.wall r.last_wall ≡ ok now
  pub mono : ℕ
  pub mono_read : read_clock clock.mono r.last_mono ≡ ok mono
  pub answer : A
  pub made : body request now mono (at_mono (at_wall r now) mono) ≡ ok (answer, db)

after-cases :
    {A B : Type 0} (m : Result A) (k : A → Call B) (r : Registry)
    → ((after m k r).1 ≡ r) ⊎ ((a : A) × (m ≡ ok a) × ((after m k r).1 ≡ (k a r).1))
unfolding after
after-cases (ok a) k r = inr (a, refl, refl)
after-cases (err e) k r = inl refl

settle-cases :
    {A : Type 0} (r : Registry) (m : Result (A × Db))
    → ((settle r m).1.db ≡ r.db) ⊎ ((a : A) × (m ≡ ok (a, (settle r m).1.db)))
unfolding settle
settle-cases r (ok (a, db)) = inr (a, refl)
settle-cases r (err e) = inl refl

module _ {Q A : Type 0} (m : Result Q) (clock : Clock)
    (body : Q → ℕ → ℕ → Registry → Result (A × Db)) (r : Registry) where
  abbrev pub Settled : Registry → Type 0
  Settled s = (s.db ≡ r.db) ⊎ Timed m clock body r s.db

  mono-cases :
      (q : Q) (now : ℕ)
      → m ≡ ok q
      → read_clock clock.wall r.last_wall ≡ ok now
      → Settled (with_mono clock (λ mono. transaction (body q now mono)) (at_wall r now)).1
  unfolding with_mono transaction
  mono-cases q now valid wall =
      elim (after-cases (read_clock clock.mono r.last_mono)
        (λ mono s. settle (at_mono s mono) (body q now mono (at_mono s mono))) (at_wall r now)) [
          | inl same ↦ inl (ap (λ s. s.db) same)
          | inr (mono, elapsed, same) ↦
              elim (settle-cases (at_mono (at_wall r now) mono)
                (body q now mono (at_mono (at_wall r now) mono))) [
                  | inl still ↦ inl (ap (λ s. s.db) same ∙ still)
                  | inr (a, made) ↦ inr (
                      subst (λ s. Timed m clock body r s.db) (sym same)
                        (record {
                          request = q;
                          valid = valid;
                          now = now;
                          wall_read = wall;
                          mono = mono;
                          mono_read = elapsed;
                          answer = a;
                          made = made;
                        }))
                ]
        ]

  now-cases :
      (q : Q)
      → m ≡ ok q
      → Settled (with_now clock (λ now. with_mono clock λ mono. transaction (body q now mono)) r).1
  unfolding with_now
  now-cases q valid =
      elim (after-cases (read_clock clock.wall r.last_wall)
        (λ now s. with_mono clock (λ mono. transaction (body q now mono)) (at_wall s now)) r) [
          | inl same ↦ inl (ap (λ s. s.db) same)
          | inr (now, wall, same) ↦ subst Settled (sym same) (mono-cases q now valid wall)
        ]

  pub timed-cases :
      (p : Principal) (allowed : List String) → Settled (timed p allowed m clock body r).1
  unfolding with_principal
  timed-cases p allowed =
      elim (after-cases (principal r.config p allowed)
        (λ _.
          after m
            (λ q. with_now clock λ now. with_mono clock λ mono. transaction (body q now mono)))
        r) [
          | inl same ↦ inl (ap (λ s. s.db) same)
          | inr (u, passed, same) ↦
              elim (after-cases m
                (λ q. with_now clock λ now. with_mono clock λ mono. transaction (body q now mono))
                r) [
                  | inl still ↦ inl (ap (λ s. s.db) (same ∙ still))
                  | inr (q, valid, last) ↦ subst Settled (sym (same ∙ last)) (now-cases q valid)
                ]
        ]
