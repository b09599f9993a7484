-- ===== src/Worker/Steps/Reconciling.antt =====
-- The chain of writes of `_reconcile`: a look at each unit.
use nexus_infra.Base.{
  String, Bool, true, false, List, [], ◌∷◌, Option, none, some, ◌≡◌, refl, if◌then◌else◌,
}
use nexus_infra.Worker.State.{
  Config, Phase, starting, stopping, running, unknown, stopped, preparing, prepared, Instance, Db,
  is_reserve, get_instance,
}
use nexus_infra.Worker.Host.{View, Views, later, Show, show_unit, unit_drained, in_state, says}
use nexus_infra.Worker.Act.{in_phase, settled}
use nexus_infra.Worker.Reconcile.{
  starting_now, stopping_now, running_now, unknown_now, observed_in, refresh, reconcile_rows,
  reconcile, lapsed,
}
use nexus_infra.Worker.Steps.{
  Change, unchanged, settles, moves, before, changes, Reach, here, Reach-trans, Reach-step,
  is_starting,
}
use nexus_infra.Worker.Steps.Rules.{found_self}

-- A look at a unit gives the row another phase, which was reserved before.
record Looked (db : Db) (i j : Instance) : Type 0 where
  change : Change db i j
  fits : is_reserve j.phase ≡ true → is_reserve i.phase ≡ true

module _ (c : Config) (v : View) (db : Db) (i : Instance) where
  same-Looked : Looked db i i
  same-Looked = record { change = unchanged refl; fits = λ h. h }

  settled-Looked :
      (p : Phase) → is_starting p ≡ false → is_reserve i.phase ≡ true → Looked db i (settled p i)
  settled-Looked p calm h = record { change = settles p calm refl; fits = λ _. h }

  moved-Looked :
      (p : Phase)
      → is_starting p ≡ false
      → is_starting i.phase ≡ false
      → is_reserve i.phase ≡ true
      → Looked db i (in_phase p i)
  moved-Looked p calm was h = record { change = moves p calm was refl; fits = λ _. h }

  if-Looked :
      (b : Bool) (j k : Instance) → Looked db i j → Looked db i k → Looked db i (if b then j else k)
  if-Looked true j k h g = h
  if-Looked false j k h g = g

  starting_now-Looked :
      (s : Option Show) → is_reserve i.phase ≡ true → Looked db i (starting_now c v i s)
  unfolding starting_now
  starting_now-Looked none h = same-Looked
  starting_now-Looked (some s) h =
      if-Looked (in_state "active" (some s)) _ _ (settled-Looked running refl h) (
        if-Looked (says true (unit_drained v (some s))) _ _ (settled-Looked stopped refl h)
          (if-Looked (lapsed c v.monotonic i) _ _ (settled-Looked unknown refl h) same-Looked))

  stopping_now-Looked :
      (d : Option Bool)
      → is_starting i.phase ≡ false
      → is_reserve i.phase ≡ true
      → Looked db i (stopping_now i d)
  unfolding stopping_now
  stopping_now-Looked none was h = same-Looked
  stopping_now-Looked (some d) was h =
      if-Looked d _ _ (moved-Looked stopped refl was h) (moved-Looked unknown refl was h)

  running_now-Looked :
      (s : Option Show)
      → is_starting i.phase ≡ false
      → is_reserve i.phase ≡ true
      → Looked db i (running_now v i s)
  unfolding running_now
  running_now-Looked none was h = same-Looked
  running_now-Looked (some s) was h = if-Looked (in_state "active" (some s)) _ _ same-Looked (
      if-Looked (says true (unit_drained v (some s))) _ _ (moved-Looked stopped refl was h)
        (moved-Looked unknown refl was h))

  unknown_now-Looked :
      (s : Option Show)
      → is_starting i.phase ≡ false
      → is_reserve i.phase ≡ true
      → Looked db i (unknown_now v i s)
  unfolding unknown_now
  unknown_now-Looked none was h = same-Looked
  unknown_now-Looked (some s) was h =
      if-Looked (in_state "active" (some s)) _ _ (settled-Looked running refl h) (
        if-Looked (says true (unit_drained v (some s))) _ _ (moved-Looked stopped refl was h)
          same-Looked)

  observed_in-Looked :
      (s : Option Show) (p : Phase) → i.phase ≡ p → Looked db i (observed_in c v i s p)
  unfolding observed_in
  observed_in-Looked s starting e = starting_now-Looked s (rw e refl)
  observed_in-Looked s stopping e = stopping_now-Looked (unit_drained v s) (rw e refl) (rw e refl)
  observed_in-Looked s running e = running_now-Looked s (rw e refl) (rw e refl)
  observed_in-Looked s unknown e = unknown_now-Looked s (rw e refl) (rw e refl)
  observed_in-Looked s preparing e = same-Looked
  observed_in-Looked s prepared e = same-Looked
  observed_in-Looked s stopped e = same-Looked

refresh-Reach :
    (c : Config) (vs : Views) (db : Db) (k : String) (o : Option Instance)
    → get_instance db k ≡ o
    → Reach db (refresh c vs db o)
refresh-Reach c vs db k none found = here
refresh-Reach c vs db k (some i) found =
    let seen = observed_in-Looked c (vs 1) db i (show_unit (vs 0) i.machine_name) i.phase refl in
    Reach-step (changes i _ (found_self db k i found) seen.change (before seen.fits) refl)

reconcile_rows-Reach :
    (c : Config) (vs : Views) (is : List Instance) (db : Db) → Reach db (reconcile_rows c vs is db)
unfolding reconcile_rows
reconcile_rows-Reach c vs [] db = here
reconcile_rows-Reach c vs (i ∷ is) db =
    Reach-trans (refresh-Reach c vs db i.instance_id (get_instance db i.instance_id) refl)
      (reconcile_rows-Reach c (later 2 vs) is _)

pub reconcile-Reach : (c : Config) (vs : Views) (db : Db) → Reach db (reconcile c vs db)
unfolding reconcile
reconcile-Reach c vs db = reconcile_rows-Reach c vs db.instances db
