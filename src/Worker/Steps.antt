-- ===== src/Worker/Steps.antt =====
-- The writes of the worker as a step relation on its database, and the chains of them that its
-- methods make.
pub mod Rules
pub mod Stopping
pub mod Starting
pub mod Capturing
pub mod Preparing
pub mod Reconciling
pub mod Executing
use nexus_infra.Base.{
  ℕ, String, Bool, true, false, List, [], ◌∷◌, ◌++◌, Option, none, some, is_some, ◌≡◌, ◌⊎◌,
}
use nexus_infra.Base.Table.{any, upsert}
use nexus_infra.Worker.State.{
  Phase, preparing, starting, stopping, Instance, Capture, Operation, Receipt, Known, Db,
  is_reserve, get_instance, operation_row, capture_row, is_held,
}
use nexus_infra.Worker.Checks.{known_generation, is_known}
use nexus_infra.Worker.Act.{rival, put, in_phase, settled, is_pending, finished}
use nexus_infra.Worker.Stop.{retiring}
use nexus_infra.Worker.Start.{permitted}
use nexus_infra.Worker.Capture.{release}
use nexus_infra.Worker.Prepare.{shares_name, is_newer, bump}

abbrev pub is_starting : Phase → Bool
is_starting starting = true
is_starting _ = false

-- What gives an instance its start permit: it is not retired, no capture of its workload is held, and
-- its generation is the highest that is known.
pub record MayStart (db : Db) (i : Instance) : Type 0 where
  pub active : i.retired ≡ false
  pub free : is_held db i.workload_id ≡ false
  pub newest : is_known (known_generation db i.workload_id) i.generation ≡ true

-- How a row of `instances` changes.
pub data Change (db : Db) (i j : Instance) : Type 0 where
  unchanged : j ≡ i → Change db i j
  settles : (p : Phase) → is_starting p ≡ false → j ≡ settled p i → Change db i j
  moves :
      (p : Phase)
      → is_starting p ≡ false
      → is_starting i.phase ≡ false
      → j ≡ in_phase p i
      → Change db i j
  retires : j ≡ retiring i → Change db i j
  grants : (boot : String) (t : ℕ) → MayStart db i → j ≡ permitted boot t i → Change db i j
  consumes : j ≡ record i { permit = false } → Change db i j

-- The index `current_workload` is not violated: by its check, or since the phase was reserved before.
pub data Fits (db : Db) (i j : Instance) : Type 0 where
  checked : any (rival j) db.instances ≡ false → Fits db i j
  before : (is_reserve j.phase ≡ true → is_reserve i.phase ≡ true) → Fits db i j

pub data Step (db db' : Db) : Type 0 where
  opens :
      (o : Operation)
      → operation_row db o.operation_id ≡ none
      → db' ≡ record db { operations = db.operations ++ o ∷ [] }
      → Step db db'
  closes :
      (o : Operation) (a : Receipt)
      → operation_row db o.operation_id ≡ some o
      → is_pending o.status ≡ true
      → db' ≡ record db { operations = upsert (λ t. t.operation_id) (finished o a) db.operations }
      → Step db db'
  changes :
      (i j : Instance)
      → get_instance db i.instance_id ≡ some i
      → Change db i j
      → Fits db i j
      → db' ≡ put db j
      → Step db db'
  inserts :
      (i : Instance)
      → any (shares_name i) db.instances ≡ false
      → any (rival i) db.instances ≡ false
      → is_newer (known_generation db i.workload_id) i.generation ≡ true
      → i.phase ≡ preparing
      → i.permit ≡ false
      → db' ≡ bump i.workload_id i.generation (record db { instances = db.instances ++ i ∷ [] })
      → Step db db'
  bumps :
      (i : Instance)
      → get_instance db i.instance_id ≡ some i
      → db' ≡ bump i.workload_id i.generation db
      → Step db db'
  holds :
      (i : Instance) (k : Capture)
      → get_instance db i.instance_id ≡ some i
      → k.workload_id ≡ i.workload_id
      → is_held db i.workload_id ≡ false
      → any (rival (settled stopping i)) db.instances ≡ false
      → db' ≡ record (put db (settled stopping i)) { captures = db.captures ++ k ∷ [] }
      → Step db db'
  releases : (k : Capture) → capture_row db k.capture_id ≡ some k → db' ≡ release k db → Step db db'

pub data Reach (db : Db) : Db → Type 0 where
  here : Reach db db
  next : {db' db'' : Db} → Reach db db' → Step db' db'' → Reach db db''

pub Reach-trans : {a b c : Db} → Reach a b → Reach b c → Reach a c
Reach-trans r here = r
Reach-trans r (next s t) = next (Reach-trans r s) t

pub Reach-step : {a b : Db} → Step a b → Reach a b
Reach-step s = next here s
