-- ===== src/Worker/Reconcile.antt =====
-- `_reconcile` of console/worker.py.
use nexus_infra.Base.{
  ℕ, Bool, true, not, ◌||◌, List, [], ◌∷◌, Option, none, some, str_eq, ltb, if◌then◌else◌,
}
use nexus_infra.Worker.State.{
  Config, Instance, Phase, starting, running, stopping, stopped, unknown, Db, get_instance,
}
use nexus_infra.Worker.Host.{View, Views, later, Show, show_unit, unit_drained, says, in_state}
use nexus_infra.Worker.Act.{put, in_phase, settled}

-- Whether a permit has lapsed: another boot, or past its deadline.
abbrev pub lapsed : Config → ℕ → Instance → Bool
lapsed c now i = not (str_eq i.boot_id c.boot_id) || ltb i.permit_deadline now

unfoldable pub starting_now : Config → View → Instance → Option Show → Instance
starting_now c v i none = i
starting_now c v i (some s) =
    if in_state "active" (some s)
    then settled running i
    else if says true (unit_drained v (some s))
    then settled stopped i
    else if lapsed c v.monotonic i
    then settled unknown i
    else i

unfoldable pub stopping_now : Instance → Option Bool → Instance
stopping_now i none = i
stopping_now i (some drained) = if drained then in_phase stopped i else in_phase unknown i

unfoldable pub running_now : View → Instance → Option Show → Instance
running_now v i none = i
running_now v i (some s) =
    if in_state "active" (some s)
    then i
    else if says true (unit_drained v (some s))
    then in_phase stopped i
    else in_phase unknown i

unfoldable pub unknown_now : View → Instance → Option Show → Instance
unknown_now v i none = i
unknown_now v i (some s) =
    if in_state "active" (some s)
    then settled running i
    else if says true (unit_drained v (some s))
    then in_phase stopped i
    else i

unfoldable pub observed_in : Config → View → Instance → Option Show → Phase → Instance
unfolding starting_now stopping_now running_now unknown_now
observed_in c v i s starting = starting_now c v i s
observed_in c v i s stopping = stopping_now i (unit_drained v s)
observed_in c v i s running = running_now v i s
observed_in c v i s unknown = unknown_now v i s
observed_in c v i s _ = i

-- The row after a look at its unit. None of these statements can violate the index
-- `current_workload`: the phase was reserved before.
abbrev pub observed_now : Config → View → Instance → Option Show → Instance
observed_now c v i s = observed_in c v i s i.phase

abbrev pub refresh : Config → Views → Db → Option Instance → Db
refresh c vs db none = db
refresh c vs db (some i) = put db (observed_now c (vs 1) i (show_unit (vs 0) i.machine_name))

-- The loop over the instances, of which those in the four phases change.
unfoldable pub reconcile_rows : Config → Views → List Instance → Db → Db
reconcile_rows c vs [] db = db
reconcile_rows c vs (i ∷ is) db =
    reconcile_rows c (later 2 vs) is (refresh c vs db (get_instance db i.instance_id))

-- `_reconcile`
unfoldable pub reconcile : Config → Views → Db → Db
unfolding reconcile_rows
reconcile c vs db = reconcile_rows c vs db.instances db
