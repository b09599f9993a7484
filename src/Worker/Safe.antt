-- ===== src/Worker/Safe.antt =====
-- The invariant of the database of a worker.
use nexus_infra.Base.{ℕ, Bool, true, false, Option, none, some, str_eq, leb, ◌≡◌}
use nexus_infra.Worker.State.{Instance, Db, is_reserve, get_instance}
use nexus_infra.Worker.Checks.{known_generation}
use nexus_infra.Worker.Steps.{MayStart, is_starting}
pub mod Rows
pub mod Writes
pub mod Steps

-- The row is in the table under its own name.
abbrev pub Has : Db → Instance → Type 0
Has db i = get_instance db i.instance_id ≡ some i

abbrev pub reaches : Option ℕ → ℕ → Bool
reaches none g = false
reaches (some k) g = leb g k

pub record Earned (db : Db) (i : Instance) : Type 0 where
  pub launching : is_starting i.phase ≡ true
  pub may : MayStart db i

pub record IsSafe (db : Db) : Type 0 where
  pub single :
      (i j : Instance)
      → Has db i
      → Has db j
      → is_reserve i.phase ≡ true
      → is_reserve j.phase ≡ true
      → i.workload_id ≡ j.workload_id
      → i ≡ j
  pub earned : (i : Instance) → Has db i → i.permit ≡ true → Earned db i
  pub recorded :
      (i : Instance) → Has db i → reaches (known_generation db i.workload_id) i.generation ≡ true
