-- ===== src/Registry/Agreement.antt =====
-- `_ready`, `_retired_drained` and `open_session` of console/registry.py, beside the state that
-- `_observed_state` shows.
use nexus_infra.Base.{
  ℕ, String, Bool, true, false, List, ◌↔◌, ◌||◌, Option, none, some, str_eq, eq_iff, eq_refl, ltb,
  if◌then◌else◌, ◌≡◌, ◌≢◌, refl, arith,
}
use nexus_infra.Base.Table.{row-upsert}
use nexus_infra.Base.Strings.{subset}
use nexus_infra.Base.Result.{ok}
use nexus_infra.Registry.State.{Session, Observation, ObservationRow, Db, Registry}
use nexus_infra.Registry.Requests.{serving}
use nexus_infra.Registry.Evidence.{fresh, retired_drained, ready_for, ready, route_services}
use nexus_infra.Registry.Session.{opened, open_session_body}
use nexus_infra.Registry.Views.{
  ObservedState, unknown, running, retired, stopped, preparing, prepared, starting, stopping, quiet,
  when, idle_state, shown_state, row_state, observed_state,
}

-- A fresh observation does not come from the future.
fresh-past :
    (r : Registry) (o : ObservationRow) (h : String) (now mono : ℕ)
    → fresh r (some o) h now mono ≡ true
    → ltb now o.payload.observed_at ≡ false
unfolding fresh
fresh-past r o h now mono e = ground arith

-- Two names cannot both be equal to a text.
other_name : (s a b : String) → str_eq a b ≡ false → str_eq s a ≡ true → str_eq s b ≡ false
other_name s a b differ h = rw ((eq_iff s a).0 h) differ

serving-shown :
    (o : Observation)
    → serving o.phase o.unit_active_state o.unit_drained o.retired ≡ true
    → shown_state o ≡ running
unfolding shown_state
serving-shown o h = ground (arith, other_name o.unit_active_state "active" "unknown" refl)

ne-when : (b : Bool) (s : ObservedState) → s ≢ running → when b s ≢ running
ne-when true s h = h
ne-when false s h = λ e. cc

ne-if :
    (b : Bool) (s t : ObservedState) → s ≢ running → t ≢ running → (if b then s else t) ≢ running
ne-if true s t hs ht = hs
ne-if false s t hs ht = ht

unknown-ne-running : unknown ≢ running
unknown-ne-running e = cc

idle-running : (o : Observation) → idle_state o ≢ running
unfolding idle_state
idle-running o = ne-if (str_eq o.phase "stopped") _ _ (ne-when (quiet o) stopped (λ e. cc)) (
    ne-if (str_eq o.phase "preparing") _ _ (ne-when (quiet o) preparing (λ e. cc)) (
      ne-if (str_eq o.phase "prepared") _ _ (ne-when (quiet o) prepared (λ e. cc)) (
        ne-if (str_eq o.phase "starting") _ _
          (ne-when
            (quiet o
              || str_eq o.unit_active_state "activating"
              || str_eq o.unit_active_state "active")
            starting (λ e. cc))
          (ne-if (str_eq o.phase "stopping") _ _
            (ne-when
              (quiet o
                || str_eq o.unit_active_state "active"
                || str_eq o.unit_active_state "activating"
                || str_eq o.unit_active_state "deactivating")
              stopping (λ e. cc))
            unknown-ne-running))))

shown-serving :
    (o : Observation)
    → shown_state o ≡ running
    → serving o.phase o.unit_active_state o.unit_drained o.retired ≡ true
unfolding shown_state
shown-serving o h = ground (arith, idle-running o)

-- The observation names all the services.
abbrev pub names_ready : Option ObservationRow → List String → Bool
names_ready none needed = false
names_ready (some o) needed = subset needed o.payload.ready_services

row-running :
    (r : Registry) (o : ObservationRow) (h : String) (now mono : ℕ) (needed : List String)
    → (ready_for r (some o) h now mono needed ≡ true)
      ↔ ((row_state r o h now mono ≡ running) × (names_ready (some o) needed ≡ true))
unfolding ready_for row_state
row-running r o h now mono needed = (
  (λ e. (ground (arith, fresh-past r o h now mono, serving-shown o.payload), ground arith)),
  (λ (e, named). ground (arith, shown-serving o.payload)),
)

for-running :
    (r : Registry) (o : Option ObservationRow) (h : String) (now mono : ℕ) (needed : List String)
    → (ready_for r o h now mono needed ≡ true)
      ↔ ((observed_state r o h now mono ≡ running) × (names_ready o needed ≡ true))
unfolding observed_state ready_for fresh
for-running r none h now mono needed = ((λ e. absurd (ground arith)), (λ (e, named). cc))
for-running r (some o) h now mono needed = row-running r o h now mono needed

-- The registry takes the evidence on an instance of a workload as ready exactly if it shows the
-- instance as running and the observation names every service that the routes of the workload need.
pub ready_iff_running :
    (r : Registry) (o : Option ObservationRow) (h w : String) (now mono : ℕ)
    → (ready r o h w now mono ≡ true) ↔ (
        (observed_state r o h now mono ≡ running)
        × (names_ready o (route_services r.config.routes w) ≡ true))
unfolding ready
ready_iff_running r o h w now mono = for-running r o h now mono (route_services r.config.routes w)

drained-shown : (o : Observation) → o.retired ≡ true → quiet o ≡ true → shown_state o ≡ retired
unfolding shown_state
drained-shown o gone still = ground (
  arith,
  other_name o.unit_active_state "inactive" "unknown" refl,
  other_name o.unit_active_state "failed" "unknown" refl,
)

-- An incumbent that is proved retired and drained, so that a successor may be assigned without a
-- fence, is shown as retired.
pub retired_drained-shown :
    (r : Registry) (o : Option ObservationRow) (h : String) (now mono : ℕ)
    → retired_drained r o h now mono ≡ true
    → observed_state r o h now mono ≡ retired
unfolding observed_state retired_drained row_state
retired_drained-shown r none h now mono e = absurd (ground arith)
retired_drained-shown r (some o) h now mono e =
    ground (arith, fresh-past r o h now mono, drained-shown o.payload)

-- After a host has opened a session with another id, no observation of its earlier sessions is fresh.
pub open_session_stales :
    (host_id session_id : String) (r : Registry) (s : Session) (db : Db) (o : ObservationRow)
    (now mono : ℕ)
    → open_session_body host_id session_id r ≡ ok (s, db)
    → o.session_id ≢ session_id
    → fresh (record r { db = db }) (some o) host_id now mono ≡ false
unfolding open_session_body fresh
open_session_stales host_id session_id r s db o now mono h differs = ground (
  arith,
  row-upsert (λ t. t.host_id) host_id (opened r host_id session_id) r.db.sessions,
  eq_refl host_id,
  eq_iff session_id o.session_id,
)
