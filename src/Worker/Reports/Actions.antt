-- ===== src/Worker/Reports/Actions.antt =====
-- The receipts of `stop`, `retire`, `start` and their resumptions.
use nexus_infra.Base.{Bool, true, false, Option, none, some, ◌≡◌, refl, if◌then◌else◌}
use nexus_infra.Worker.State.{
  Request, Config, Phase, prepared, starting, running, stopped, unknown, Bundle, Instance, Receipt,
  Db,
}
use nexus_infra.Worker.Host.{
  Fault, Outcome, fault, done, uncertain_error, View, Views, later, Show, show_unit, unit_drained,
  in_state, says,
}
use nexus_infra.Worker.Act.{Act, chain, ◌>>=◌, ◌>>◌, raises}
use nexus_infra.Worker.Stop as Stop
use nexus_infra.Worker.Stop.{
  stop_unit_of, issue_stop, settle_stop, stop_now, again, is_early, is_stopped,
}
use nexus_infra.Worker.Start as Start
use nexus_infra.Worker.Reports.{Reported, Tells, Tells-finish}

module _ (q : Request) where
  chain-Reported :
      {A : Type 0} (r : Outcome A × Db) (k : A → Act Receipt) (b : Receipt)
      → ((a : A) → Tells q (k a))
      → (chain r k).0 ≡ done b
      → Reported q (chain r k).1 b
  unfolding chain
  chain-Reported (fault e, db) k b rest h = cc
  chain-Reported (done a, db) k b rest h = (rest a).tells db b h

  pub Tells-bind :
      {A : Type 0} (m : Act A) (k : A → Act Receipt) → ((a : A) → Tells q (k a)) → Tells q (m >>= k)
  unfolding ◌>>=◌
  Tells-bind m k rest = record { tells = λ db b h. chain-Reported (m db) k b rest h }

  pub Tells-then : (m : Act (Unit {0})) (k : Act Receipt) → Tells q k → Tells q (m >> k)
  unfolding ◌>>◌
  Tells-then m k rest = Tells-bind m (λ _. k) (λ _. rest)

  pub Tells-raises : (e : Fault) → Tells q (raises e)
  unfolding raises
  Tells-raises e = record { tells = λ db b h. cc }

  pub Tells-if :
      (t : Bool) (m n : Act Receipt) → Tells q m → Tells q n → Tells q (if t then m else n)
  Tells-if true m n a b = a
  Tells-if false m n a b = b

module _ (c : Config) (q : Request) where
  pub stop_unit_of-Tells : (vs : Views) (i : Instance) → Tells q (stop_unit_of c vs q i)
  unfolding stop_unit_of issue_stop settle_stop
  stop_unit_of-Tells vs i = Tells-then q _ _ (
      Tells-if q _ _ _ (Tells-then q _ _ (Tells-finish c q _ _ _ refl))
        (Tells-then q _ _ (Tells-raises q _)))

  stop_now-Tells : (vs : Views) (i : Instance) → Tells q (stop_now c vs q i)
  unfolding stop_now
  stop_now-Tells vs i = Tells-then q _ _ (stop_unit_of-Tells vs i)

  pub stop-Tells : (vs : Views) → Tells q (Stop.stop c vs q)
  unfolding Stop.stop
  stop-Tells vs = Tells-bind q _ _ λ i.
      Tells-if q _ _ _ (Tells-raises q _)
        (Tells-if q _ _ _ (Tells-finish c q _ _ _ refl) (stop_now-Tells (later 2 vs) i))

  shown-Tells :
      (vs : Views) (i : Instance) (s : Option Show)
      → Tells q (elim s as (λ _. Act Receipt) [
        | none ↦ raises uncertain_error
        | some w ↦ stop_now c (later 1 vs) q i
      ])
  shown-Tells vs i none = Tells-raises q _
  shown-Tells vs i (some w) = stop_now-Tells (later 1 vs) i

  again-Tells : (vs : Views) (i : Instance) (s : Option Show) → Tells q (again c vs q i s)
  unfolding again
  again-Tells vs i s =
      Tells-if q _ _ _ (Tells-then q _ _ (Tells-finish c q _ _ _ refl)) (shown-Tells vs i s)

  pub resume_stop-Tells : (vs : Views) → Tells q (Stop.resume_stop c vs q)
  unfolding Stop.resume_stop
  resume_stop-Tells vs =
      Tells-bind q _ _ λ i. Tells-if q _ _ _ (Tells-raises q _) (again-Tells (later 1 vs) i _)

  pub retire-Tells : (vs : Views) → Tells q (Stop.retire c vs q)
  unfolding Stop.retire
  retire-Tells vs = Tells-bind q _ _ λ i. Tells-then q _ _ (stop_unit_of-Tells vs i)

  pub resume_retire-Tells : (vs : Views) → Tells q (Stop.resume_retire c vs q)
  unfolding Stop.resume_retire
  resume_retire-Tells vs =
      Tells-bind q _ _ λ i. Tells-if q _ _ _ (resume_stop-Tells vs) (retire-Tells vs)

  settle_start-Tells :
      (v : View) (i : Instance) (s : Option Show) → Tells q (Start.settle_start c v q i s)
  unfolding Start.settle_start
  settle_start-Tells v i s =
      Tells-if q (in_state "active" s) _ _ (Tells-then q _ _ (Tells-finish c q _ _ _ refl)) (
        Tells-if q (says true (unit_drained v s)) _ _
          (Tells-then q _ _ (Tells-finish c q _ _ _ refl)) (Tells-then q _ _ (Tells-raises q _)))

  check_launch-Tells :
      (vs : Views) (i : Instance) (b : Bundle) → Tells q (Start.check_launch c vs q i b)
  unfolding Start.check_launch Start.launch
  check_launch-Tells vs i b = Tells-then q _ _ (
      Tells-then q _ _
        (Tells-then q _ _ (settle_start-Tells (vs 3) i (show_unit (vs 2) i.machine_name))))

  start_running-Tells :
      (vs : Views) (i : Instance) (b : Bundle) (s : Option Show)
      → Tells q (Start.start_running c vs q i b s)
  unfolding Start.start_running
  start_running-Tells vs i b none = Tells-raises q _
  start_running-Tells vs i b (some s) = Tells-if q _ _ _ (Tells-finish c q _ _ _ refl) (
      Tells-if q _ _ _ (Tells-then q _ _ (check_launch-Tells (later 1 vs) i b))
        (Tells-then q _ _ (Tells-raises q _)))

  by_phase-Tells :
      (vs : Views) (i : Instance) (b : Bundle) (p : Phase) → Tells q (Start.by_phase c vs q i b p)
  unfolding Start.by_phase
  by_phase-Tells vs i b running =
      start_running-Tells (later 1 vs) i b (show_unit (vs 0) i.machine_name)
  by_phase-Tells vs i b prepared = check_launch-Tells vs i b
  by_phase-Tells vs i b stopped = check_launch-Tells vs i b
  by_phase-Tells vs i b _ = Tells-raises q _

  pub start-Tells : (vs : Views) → Tells q (Start.start c vs q)
  unfolding Start.start
  start-Tells vs = Tells-bind q _ _ λ (i, b). by_phase-Tells (later 1 vs) i b i.phase

  start_failed-Tells :
      (i : Instance) (f : Instance → Instance) → Tells q (Start.start_failed c q i f)
  unfolding Start.start_failed
  start_failed-Tells i f = Tells-then q _ _ (Tells-finish c q _ _ _ refl)

  now_running-Tells : (i : Instance) → Tells q (Start.now_running c q i)
  unfolding Start.now_running
  now_running-Tells i = Tells-then q _ _ (Tells-finish c q _ _ _ refl)

  resumed_running-Tells :
      (v : View) (i : Instance) (s : Option Show) → Tells q (Start.resumed_running c v q i s)
  unfolding Start.resumed_running
  resumed_running-Tells v i none = Tells-raises q _
  resumed_running-Tells v i (some s) =
      Tells-if q _ _ _ (Tells-finish c q _ _ _ refl)
        (Tells-if q _ _ _ (start_failed-Tells i _) (Tells-raises q _))

  resumed_unknown-Tells :
      (v : View) (i : Instance) (s : Option Show) → Tells q (Start.resumed_unknown c v q i s)
  unfolding Start.resumed_unknown
  resumed_unknown-Tells v i s = Tells-if q (Start.is_waiting s) _ _ (Tells-raises q _) (
      Tells-if q (in_state "active" s) _ _ (now_running-Tells i)
        (Tells-if q (says true (unit_drained v s)) _ _ (start_failed-Tells i _) (Tells-raises q _)))

  resumed_starting-Tells :
      (vs : Views) (i : Instance) (s : Option Show) → Tells q (Start.resumed_starting c vs q i s)
  unfolding Start.resumed_starting
  resumed_starting-Tells vs i s = Tells-if q (in_state "active" s) _ _ (now_running-Tells i) (
      Tells-if q (Start.is_waiting s) _ _ (Tells-raises q _) (
        Tells-if q (Start.is_live c (vs 0).monotonic i) _ _ (Tells-raises q _) (
          Tells-if q (says true (unit_drained (vs 1) s)) _ _ (start_failed-Tells i _)
            (Tells-then q _ _ (Tells-raises q _)))))

  resumed_by_phase-Tells :
      (vs : Views) (i : Instance) (s : Option Show) (p : Phase)
      → Tells q (Start.resumed_by_phase c vs q i s p)
  unfolding Start.resumed_by_phase
  resumed_by_phase-Tells vs i s prepared = start-Tells (later 1 vs)
  resumed_by_phase-Tells vs i s running = resumed_running-Tells (vs 1) i s
  resumed_by_phase-Tells vs i s stopped = Tells-finish c q _ _ _ refl
  resumed_by_phase-Tells vs i s unknown = resumed_unknown-Tells (vs 1) i s
  resumed_by_phase-Tells vs i s starting = resumed_starting-Tells (later 1 vs) i s
  resumed_by_phase-Tells vs i s _ = Tells-raises q _

  pub resume_start-Tells : (vs : Views) → Tells q (Start.resume_start c vs q)
  unfolding Start.resume_start
  resume_start-Tells vs =
      Tells-bind q _ _ λ i. resumed_by_phase-Tells vs i (show_unit (vs 0) i.machine_name) i.phase
