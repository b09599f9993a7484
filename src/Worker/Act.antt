-- ===== src/Worker/Act.antt =====
-- Methods of console/worker.py as functions of the database, and the writes that they share:
-- `_receipt`, `_finish`, `_uncertain` and the UPDATEs of `instances`.
use nexus_infra.Base.{
  String, Bool, true, false, not, ◌&&◌, Option, none, some, str_eq, ◌==◌, if◌then◌else◌,
}
use nexus_infra.Base.Table.{upsert, any}
use nexus_infra.Worker.State.{
  Action, prepare, adopt, start, stop, retire, freeze, thaw, Request, Config, Instance, Phase,
  preparing, prepared, starting, running, stopping, stopped, unknown, Status, pending, completed,
  failed, uncertain, Receipt, Operation, Db, is_reserve, get_instance, operation_row,
}
use nexus_infra.Worker.Request.{is_capture}
use nexus_infra.Worker.Host.{Fault, refused, internal, Outcome, fault, done}

-- What is committed before a method raises stays.
abbrev pub Act : Type 0 → Type 0
Act A = Db → Outcome A × Db

unfoldable pub chain : {A B : Type 0} → Outcome A × Db → (A → Act B) → Outcome B × Db
chain (fault e, db) k = (fault e, db)
chain (done a, db) k = k a db

infixl 5 ◌>>=◌ ◌>>◌
unfoldable pub ◌>>=◌ : {A B : Type 0} → Act A → (A → Act B) → Act B
unfolding chain
◌>>=◌ m k db = chain (m db) k

unfoldable pub ◌>>◌ : {B : Type 0} → Act (Unit {0}) → Act B → Act B
unfolding ◌>>=◌
m >> k = m >>= λ _. k

unfoldable pub raises : {A : Type 0} → Fault → Act A
raises e db = (fault e, db)

-- Checks that only read.
unfoldable pub reads : {A : Type 0} → (Db → Outcome A) → Act A
reads f db = (f db, db)

committed : Db → Outcome Db → Outcome (Unit {0}) × Db
committed db (fault e) = (fault e, db)
committed db (done db') = (done tt, db')

-- Statements and a commit; a violated constraint rolls back.
unfoldable pub commits : (Db → Outcome Db) → Act (Unit {0})
unfolding committed
commits f db = committed db (f db)

-- The unique index `current_workload`: no other instance of the workload is in a reserved phase.
abbrev pub rival : Instance → Instance → Bool
rival i j =
    is_reserve i.phase
    && is_reserve j.phase
    && str_eq j.workload_id i.workload_id
    && not (str_eq j.instance_id i.instance_id)

abbrev pub put : Db → Instance → Db
put db i = record db { instances = upsert (λ t. t.instance_id) i db.instances }

unfoldable pub put_free : Db → Instance → Outcome Db
put_free db i = if any (rival i) db.instances then fault internal else done (put db i)

-- UPDATE instances SET ... WHERE instance_id=?
unfoldable pub update : String → (Instance → Instance) → Db → Outcome Db
unfolding put_free
update k f db = elim (get_instance db k) [ none ↦ done db | some i ↦ put_free db (f i) ]

-- SET phase=?
abbrev pub in_phase : Phase → Instance → Instance
in_phase p i = record i { phase = p }

-- SET phase=?, permit=0
abbrev pub settled : Phase → Instance → Instance
settled p i = record i { phase = p; permit = false }

abbrev pub same_action : Action → Action → Bool
same_action prepare prepare = true
same_action adopt adopt = true
same_action start start = true
same_action stop stop = true
same_action retire retire = true
same_action freeze freeze = true
same_action thaw thaw = true
same_action _ _ = false

abbrev pub same_phase : Phase → Phase → Bool
same_phase preparing preparing = true
same_phase prepared prepared = true
same_phase starting starting = true
same_phase running running = true
same_phase stopping stopping = true
same_phase stopped stopped = true
same_phase unknown unknown = true
same_phase _ _ = false

abbrev pub same_status : Status → Status → Bool
same_status pending pending = true
same_status completed completed = true
same_status failed failed = true
same_status uncertain uncertain = true
same_status _ _ = false

abbrev pub same_option_phase : Option Phase → Option Phase → Bool
same_option_phase none none = true
same_option_phase (some p) (some q) = same_phase p q
same_option_phase _ _ = false

abbrev pub same_error : Option String → Option String → Bool
same_error none none = true
same_error (some a) (some b) = str_eq a b
same_error _ _ = false

-- Whether two receipts have one canonical text.
abbrev pub same_receipt : Receipt → Receipt → Bool
same_receipt a b =
    str_eq a.operation_id b.operation_id
    && same_action a.action b.action
    && str_eq a.workload_id b.workload_id
    && str_eq a.instance_id b.instance_id
    && a.generation == b.generation
    && str_eq a.host_id b.host_id
    && same_status a.status b.status
    && same_option_phase a.applied_phase b.applied_phase
    && str_eq a.capture_id b.capture_id
    && same_error a.error b.error

host_of : Config → Option Instance → String
host_of c none = c.host_id
host_of c (some i) = elim i.binding [ none ↦ c.host_id | some b ↦ b.host_id ]

-- `_receipt`; `none` is the phase "unchanged".
unfoldable pub receipt : Config → Db → Request → Status → Option Phase → Option String → Receipt
unfolding host_of
receipt c db q status phase error = record {
  operation_id = q.operation_id;
  action = q.action;
  workload_id = q.workload_id;
  instance_id = q.instance_id;
  generation = q.generation;
  host_id = host_of c (get_instance db q.instance_id);
  status = status;
  applied_phase = phase;
  capture_id = if is_capture q.action then q.capture_id else "";
  error = error;
}

abbrev pub is_pending : Status → Bool
is_pending pending = true
is_pending _ = false

abbrev pub finished : Operation → Receipt → Operation
finished o a = record o { status = a.status; result = some a }

abbrev pub answered : Operation → Receipt → Bool
answered o a = elim o.result [ none ↦ false | some b ↦ same_receipt b a ]

unfoldable pub finish_row : Db → Option Operation → Receipt → Outcome Receipt × Db
finish_row db none a = (fault (refused "operation-conflict"), db)
finish_row db (some o) a =
    if is_pending o.status
    then (
      done a,
      record db { operations = upsert (λ t. t.operation_id) (finished o a) db.operations },
    )
    else if answered o a
    then (done a, db)
    else (fault (refused "operation-conflict"), db)

-- `_finish`
unfoldable pub finish : Config → Request → Status → Option Phase → Option String → Act Receipt
unfolding finish_row
finish c q status phase error db =
    finish_row db (operation_row db q.operation_id) (receipt c db q status phase error)

abbrev phase_of : Option Instance → Option Phase
phase_of none = none
phase_of (some i) = some i.phase

-- `_uncertain`
unfoldable pub uncertainly : Config → Request → String → Act Receipt
uncertainly c q code db =
    (done (receipt c db q uncertain (phase_of (get_instance db q.instance_id)) (some code)), db)
