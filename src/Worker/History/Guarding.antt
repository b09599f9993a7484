-- ===== src/Worker/History/Guarding.antt =====
-- The outcomes of `guard` of console/worker.py.
use nexus_infra.Base.{String, Bool, true, false, Option, none, some, ◌≡◌, refl, str_eq, ltb, arith}
use nexus_infra.Worker.State.{Config, Instance, Db, get_instance, is_held}
use nexus_infra.Worker.Host.{Outcome, fault, done, Views}
use nexus_infra.Worker.Checks.{known_generation, is_known}
use nexus_infra.Worker.Act.{put}
use nexus_infra.Worker.Execute.{
  is_starting, may_consume, guard_checks, consumed, checked, guard_row, machine_row, guard,
}
use nexus_infra.Worker.Steps.Rules.{get_instance-put}

-- The unit of a machine may start.
pub record Started (c : Config) (vs : Views) (machine : String) (db db' : Db) : Type 0 where
  pub instance_ : Instance
  pub row_found : machine_row db machine ≡ some instance_
  pub permitted : instance_.permit ≡ true
  pub launching : is_starting instance_.phase ≡ true
  pub unretired : instance_.retired ≡ false
  pub same_boot : str_eq instance_.boot_id c.boot_id ≡ true
  pub in_time : ltb (vs 4).monotonic instance_.permit_deadline ≡ true
  pub newest : is_known (known_generation db instance_.workload_id) instance_.generation ≡ true
  pub free : is_held db instance_.workload_id ≡ false
  pub checks : guard_checks c vs db instance_ ≡ done tt
  pub taken : db' ≡ put db (record instance_ { permit = false })
  pub spent : get_instance db' instance_.instance_id ≡ some (record instance_ { permit = false })

pub data Guarded (c : Config) (vs : Views) (machine : String) (db : Db) : Bool × Db → Type 0 where
  starts : {db' : Db} → Started c vs machine db db' → Guarded c vs machine db (true, db')
  refuses : Guarded c vs machine db (false, db)

module _ (c : Config) (vs : Views) (machine : String) (db : Db) where
  may_consume-all :
      (i : Instance)
      → may_consume c (vs 4).monotonic db i ≡ true
      → (i.permit ≡ true)
        × (is_starting i.phase ≡ true)
        × (i.retired ≡ false)
        × (str_eq i.boot_id c.boot_id ≡ true)
        × (ltb (vs 4).monotonic i.permit_deadline ≡ true)
        × (is_known (known_generation db i.workload_id) i.generation ≡ true)
        × (is_held db i.workload_id ≡ false)
  unfolding may_consume
  may_consume-all i h = ground arith

  consumed-Guarded :
      (i : Instance) (b : Bool)
      → machine_row db machine ≡ some i
      → guard_checks c vs db i ≡ done tt
      → may_consume c (vs 4).monotonic db i ≡ b
      → Guarded c vs machine db (consumed c (vs 4).monotonic db i)
  unfolding consumed
  consumed-Guarded i false found fine h = rw h refuses
  consumed-Guarded i true found fine h =
      let (p, st, u, b, t, n, f) = may_consume-all i h in
      rw h (
        starts (record {
          instance_ = i;
          row_found = found;
          permitted = p;
          launching = st;
          unretired = u;
          same_boot = b;
          in_time = t;
          newest = n;
          free = f;
          checks = fine;
          taken = refl;
          spent = get_instance-put db (record i { permit = false });
        }))

  checked-Guarded :
      (i : Instance) (r : Outcome (Unit {0}))
      → machine_row db machine ≡ some i
      → guard_checks c vs db i ≡ r
      → Guarded c vs machine db (checked c vs db i r)
  unfolding checked
  checked-Guarded i (fault e) found h = refuses
  checked-Guarded i (done tt) found h = consumed-Guarded i _ found h refl

  guard_row-Guarded :
      (o : Option Instance)
      → machine_row db machine ≡ o
      → Guarded c vs machine db (guard_row c vs db o)
  unfolding guard_row
  guard_row-Guarded none found = refuses
  guard_row-Guarded (some i) found = checked-Guarded i (guard_checks c vs db i) found refl

-- `guard` lets a unit start only if the instance of that machine holds a permit, is in the phase
-- starting, not retired, of this boot and before its deadline, of the highest known generation of
-- its workload, with no capture of the workload held, and if all its checks pass; it then takes that
-- instance's permit, and nothing else. In all other cases it changes nothing.
pub guard-Guarded :
    (c : Config) (vs : Views) (machine : String) (db : Db)
    → Guarded c vs machine db (guard c vs machine db)
unfolding guard
guard-Guarded c vs machine db = guard_row-Guarded c vs machine db (machine_row db machine) refl
