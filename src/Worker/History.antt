-- ===== src/Worker/History.antt =====
-- Histories of a worker: any requests to `execute` and starts of units through `guard`, under any
-- configurations and answers of the host.
pub mod Safety
pub mod Instances
pub mod Journal
pub mod Guarding
use nexus_infra.Base.{String, List, [], ◌∷◌}
use nexus_infra.Json.Value.{Value}
use nexus_infra.Worker.State.{Config, Db}
use nexus_infra.Worker.Host.{Views}
use nexus_infra.Worker.Execute.{Answers, execute, guard}
use nexus_infra.Worker.Steps.{Reach, here, Reach-trans}
use nexus_infra.Worker.Steps.Executing.{execute-Reach, guard-Reach}

pub data Event : Type 0 where
  executes : Config → Answers → Value → Event
  guards : Config → Views → String → Event

unfoldable pub step : Event → Db → Db
step (executes c vss v) db = (execute c vss v db).1
step (guards c vs machine) db = (guard c vs machine db).1

unfoldable pub run : List Event → Db → Db
unfolding step
run [] db = db
run (e ∷ es) db = run es (step e db)

-- The database of a new host.
abbrev pub empty_db : Db
empty_db = record { instances = []; generations = []; operations = []; captures = [] }

step-Reach : (e : Event) (db : Db) → Reach db (step e db)
unfolding step
step-Reach (executes c vss v) db = execute-Reach c vss v db
step-Reach (guards c vs machine) db = guard-Reach c vs machine db

pub run-Reach : (es : List Event) (db : Db) → Reach db (run es db)
unfolding run
run-Reach [] db = here
run-Reach (e ∷ es) db = Reach-trans (step-Reach e db) (run-Reach es (step e db))
