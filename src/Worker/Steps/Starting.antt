-- ===== src/Worker/Steps/Starting.antt =====
-- The chains of writes of `start` and its resumption.
use nexus_infra.Base.{true, false, Option, none, some, ◌≡◌, refl, arith}
use nexus_infra.Worker.State.{
  Request, Bundle, Config, Instance, Phase, prepared, starting, running, stopped, unknown, Receipt,
  Db, get_instance,
}
use nexus_infra.Worker.Host.{
  done, Views, View, later, Show, show_unit, unit_drained, says, in_state,
}
use nexus_infra.Worker.Checks.{identified, check_generation_current}
use nexus_infra.Worker.Act.{update, settled, in_phase, put}
use nexus_infra.Worker.Start.{
  settle_start, start_checks, launch, check_launch, start_running, by_phase, start, start_failed,
  resumed_running, now_running, is_waiting, resumed_unknown, is_live, resumed_starting,
  resume_checks, resumed_by_phase, resume_start,
}
use nexus_infra.Worker.Steps.{MayStart, moves, grants, is_starting, Reach}
use nexus_infra.Worker.Steps.Rules.{
  Ran, Ran-reads, Ran-checks, Ran-commits, Ran-if, Ran-raises, Ran-finish, settled-Reach,
  changed-Reach, update-found, get_instance-put,
}
use nexus_infra.Worker.Steps.Stopping.{identified-found}

-- The checks of `_start` leave an instance that may start.
start_checks-MayStart :
    (c : Config) (v : View) (q : Request) (db : Db) (i : Instance) (b : Bundle)
    → start_checks c v q db ≡ done (i, b)
    → (identified db q ≡ done i) × MayStart db i
unfolding start_checks check_generation_current
start_checks-MayStart c v q db i b h =
    (ground arith, record { active = ground arith; free = ground arith; newest = ground arith })

module _ (c : Config) (q : Request) where
  settle_start-Ran :
      (v : View) (i : Instance) (s : Option Show) (db : Db) → Ran (settle_start c v q i s) db
  unfolding settle_start
  settle_start-Ran v i s db =
      Ran-if (in_state "active" s) _ _ db
        (λ _.
          Ran-commits _ _ db
            λ db' h. (settled-Reach i.instance_id running db db' refl h, Ran-finish c q _ _ _ db'))
        (λ _.
          Ran-if (says true (unit_drained v s)) _ _ db
            (λ _. Ran-commits _ _ db λ db' h.
              (settled-Reach i.instance_id stopped db db' refl h, Ran-finish c q _ _ _ db'))
            (λ _. Ran-commits _ _ db λ db' h.
              (settled-Reach i.instance_id unknown db db' refl h, Ran-raises Receipt _ db')))

  -- The permit is given to the row that is there, which may start.
  launch-Ran :
      (vs : Views) (i j : Instance) (db : Db)
      → get_instance db i.instance_id ≡ some j
      → MayStart db j
      → Ran (launch c vs q i) db
  unfolding launch
  launch-Ran vs i j db found may = Ran-commits _ _ db λ db' h. (
    changed-Reach i.instance_id _ db db' j found (grants _ _ may refl) h,
    Ran-checks _ _ db' (λ _. settle_start-Ran (vs 3) i (show_unit (vs 2) i.machine_name) db'),
  )

  check_launch-Ran :
      (vs : Views) (i j : Instance) (b : Bundle) (db : Db)
      → get_instance db i.instance_id ≡ some j
      → MayStart db j
      → Ran (check_launch c vs q i b) db
  unfolding check_launch
  check_launch-Ran vs i j b db found may = Ran-checks _ _ db (λ _. launch-Ran vs i j db found may)

  -- A unit that is found stopped is stopped in the table, too, and then started again.
  start_running-Ran :
      (vs : Views) (i : Instance) (b : Bundle) (s : Option Show) (db : Db)
      → get_instance db i.instance_id ≡ some i
      → MayStart db i
      → i.phase ≡ running
      → Ran (start_running c vs q i b s) db
  unfolding start_running
  start_running-Ran vs i b none db found may was = Ran-raises Receipt _ db
  start_running-Ran vs i b (some s) db found may was =
      let calm : is_starting i.phase ≡ false = rw was refl in
      Ran-if (in_state "active" (some s)) _ _ db (λ _. Ran-finish c q _ _ _ db)
        (λ _.
          Ran-if (says true (unit_drained (vs 0) (some s))) _ _ db
            (λ _. Ran-commits _ _ db λ db' h. (
              changed-Reach i.instance_id (in_phase stopped) db db' i found
                  (moves stopped refl calm refl) h,
              (let (_, same) = update-found i.instance_id (in_phase stopped) db db' i found h in
                  rw same (
                    check_launch-Ran (later 1 vs) i (in_phase stopped i) b
                      (put db (in_phase stopped i)) (get_instance-put db (in_phase stopped i))
                      (record { active = may.active; free = may.free; newest = may.newest }))),
            ))
            (λ _. Ran-commits _ _ db λ db' h. (
              changed-Reach i.instance_id (in_phase unknown) db db' i found
                  (moves unknown refl calm refl) h,
              Ran-raises Receipt _ db',
            )))

  by_phase-Ran :
      (vs : Views) (i : Instance) (b : Bundle) (p : Phase) (db : Db)
      → get_instance db i.instance_id ≡ some i
      → MayStart db i
      → i.phase ≡ p
      → Ran (by_phase c vs q i b p) db
  unfolding by_phase
  by_phase-Ran vs i b running db found may was =
      start_running-Ran (later 1 vs) i b (show_unit (vs 0) i.machine_name) db found may was
  by_phase-Ran vs i b prepared db found may was = check_launch-Ran vs i i b db found may
  by_phase-Ran vs i b stopped db found may was = check_launch-Ran vs i i b db found may
  by_phase-Ran vs i b _ db found may was = Ran-raises Receipt _ db

  pub start-Ran : (vs : Views) (db : Db) → Ran (start c vs q) db
  unfolding start
  start-Ran vs db = Ran-reads (start_checks c (vs 0) q) _ db λ (i, b) h.
      let (known, may) = start_checks-MayStart c (vs 0) q db i b h in
      by_phase-Ran (later 1 vs) i b i.phase db (identified-found db q i known) may refl

  start_failed-Ran :
      (i : Instance) (change : Instance → Instance) (db : Db)
      → ((db' : Db) → update i.instance_id change db ≡ done db' → Reach db db')
      → Ran (start_failed c q i change) db
  unfolding start_failed
  start_failed-Ran i change db allowed =
      Ran-commits _ _ db λ db' h. (allowed db' h, Ran-finish c q _ _ _ db')

  now_running-Ran : (i : Instance) (db : Db) → Ran (now_running c q i) db
  unfolding now_running
  now_running-Ran i db =
      Ran-commits _ _ db
        λ db' h. (settled-Reach i.instance_id running db db' refl h, Ran-finish c q _ _ _ db')

  module _ (i : Instance) (db : Db) (found : get_instance db i.instance_id ≡ some i) where
    stopped-Ran : is_starting i.phase ≡ false → Ran (start_failed c q i (in_phase stopped)) db
    stopped-Ran calm = start_failed-Ran i (in_phase stopped) db λ db' h.
        changed-Reach i.instance_id (in_phase stopped) db db' i found (moves stopped refl calm refl)
          h

    resumed_running-Ran :
        (v : View) (s : Option Show)
        → is_starting i.phase ≡ false
        → Ran (resumed_running c v q i s) db
    unfolding resumed_running
    resumed_running-Ran v none calm = Ran-raises Receipt _ db
    resumed_running-Ran v (some s) calm =
        Ran-if (in_state "active" (some s)) _ _ db (λ _. Ran-finish c q _ _ _ db)
          (λ _.
            Ran-if (says true (unit_drained v (some s))) _ _ db (λ _. stopped-Ran calm)
              (λ _. Ran-raises Receipt _ db))

    resumed_unknown-Ran :
        (v : View) (s : Option Show)
        → is_starting i.phase ≡ false
        → Ran (resumed_unknown c v q i s) db
    unfolding resumed_unknown
    resumed_unknown-Ran v s calm =
        Ran-if (is_waiting s) _ _ db (λ _. Ran-raises Receipt _ db)
          (λ _.
            Ran-if (in_state "active" s) _ _ db (λ _. now_running-Ran i db)
              (λ _.
                Ran-if (says true (unit_drained v s)) _ _ db (λ _. stopped-Ran calm)
                  (λ _. Ran-raises Receipt _ db)))

    resumed_starting-Ran : (vs : Views) (s : Option Show) → Ran (resumed_starting c vs q i s) db
    unfolding resumed_starting
    resumed_starting-Ran vs s =
        Ran-if (in_state "active" s) _ _ db (λ _. now_running-Ran i db)
          (λ _.
            Ran-if (is_waiting s) _ _ db (λ _. Ran-raises Receipt _ db)
              (λ _.
                Ran-if (is_live c (vs 0).monotonic i) _ _ db (λ _. Ran-raises Receipt _ db)
                  (λ _.
                    Ran-if (says true (unit_drained (vs 1) s)) _ _ db
                      (λ _.
                        start_failed-Ran i (settled stopped) db
                          λ db' h. settled-Reach i.instance_id stopped db db' refl h)
                      (λ _. Ran-commits _ _ db λ db' h. (
                        settled-Reach i.instance_id unknown db db' refl h,
                        Ran-raises Receipt _ db',
                      )))))

    resumed_by_phase-Ran :
        (vs : Views) (s : Option Show) (p : Phase)
        → i.phase ≡ p
        → Ran (resumed_by_phase c vs q i s p) db
    unfolding resumed_by_phase
    resumed_by_phase-Ran vs s prepared was = start-Ran (later 1 vs) db
    resumed_by_phase-Ran vs s running was = resumed_running-Ran (vs 1) s (rw was refl)
    resumed_by_phase-Ran vs s stopped was = Ran-finish c q _ _ _ db
    resumed_by_phase-Ran vs s unknown was = resumed_unknown-Ran (vs 1) s (rw was refl)
    resumed_by_phase-Ran vs s starting was = resumed_starting-Ran (later 1 vs) s
    resumed_by_phase-Ran vs s _ was = Ran-raises Receipt _ db

  pub resume_start-Ran : (vs : Views) (db : Db) → Ran (resume_start c vs q) db
  unfolding resume_start resume_checks
  resume_start-Ran vs db = Ran-reads (resume_checks q) _ db λ i h.
      resumed_by_phase-Ran i db (identified-found db q i (ground arith)) vs
        (show_unit (vs 0) i.machine_name) i.phase refl
