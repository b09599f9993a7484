-- ===== src/Worker/History/Safety.antt =====
-- The invariant of a worker over histories.
use nexus_infra.Base.{List}
use nexus_infra.Worker.Safe.{IsSafe}
use nexus_infra.Worker.Safe.Steps.{Reach-IsSafe}
use nexus_infra.Worker.History.{Event, run, empty_db, run-Reach}

empty-IsSafe : IsSafe empty_db
empty-IsSafe = record { single = λ i j h. cc; earned = λ i h. cc; recorded = λ i h. cc }

-- After every history of a new host, under any configurations and any answers of the host: two
-- instances of one workload whose phases reserve resources are one instance; an instance that holds
-- a start permit is in the phase starting, not retired, of the highest generation that is known for
-- its workload, and no capture of its workload is held; and every instance's generation is at most
-- the highest that is known.
pub run-IsSafe : (es : List Event) → IsSafe (run es empty_db)
run-IsSafe es = Reach-IsSafe (run-Reach es empty_db) empty-IsSafe
