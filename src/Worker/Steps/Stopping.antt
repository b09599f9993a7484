-- ===== src/Worker/Steps/Stopping.antt =====
-- The chains of writes of `stop`, `retire` and their resumptions.
use nexus_infra.Base.{true, ◌&&◌, Option, none, some, ◌≡◌, refl, arith}
use nexus_infra.Worker.State.{
  Request, Config, Instance, stopping, stopped, unknown, Receipt, Db, get_instance,
}
use nexus_infra.Worker.Host.{
  done, uncertain_error, Views, View, later, Show, show_unit, unit_drained, says,
}
use nexus_infra.Worker.Checks.{identified}
use nexus_infra.Worker.Act.{Act, raises}
use nexus_infra.Worker.Stop.{
  issue_stop, settle_stop, stop_unit_of, stop_now, stop, again, resume_stop, retire, resume_retire,
  is_early, is_stopped,
}
use nexus_infra.Worker.Steps.Rules.{
  Ran, Ran-reads, Ran-checks, Ran-commits, Ran-if, Ran-raises, Ran-finish, settled-Reach,
  retiring-Reach, found_self,
}

-- An identified row is in the table under its own id.
pub identified-found :
    (db : Db) (q : Request) (i : Instance)
    → identified db q ≡ done i
    → get_instance db i.instance_id ≡ some i
unfolding identified
identified-found db q i h = found_self db q.instance_id i (ground arith)

module _ (c : Config) (q : Request) where
  settle_stop-Ran :
      (v : View) (i : Instance) (s : Option Show) (db : Db) → Ran (settle_stop c v q i s) db
  unfolding settle_stop
  settle_stop-Ran v i s db =
      Ran-if (says true (unit_drained v s)) _ _ db
        (λ _.
          Ran-commits _ _ db
            λ db' h. (settled-Reach i.instance_id stopped db db' refl h, Ran-finish c q _ _ _ db'))
        (λ _.
          Ran-commits _ _ db
            λ db' h. (settled-Reach i.instance_id unknown db db' refl h, Ran-raises Receipt _ db'))

  pub stop_unit_of-Ran : (vs : Views) (i : Instance) (db : Db) → Ran (stop_unit_of c vs q i) db
  unfolding stop_unit_of issue_stop
  stop_unit_of-Ran vs i db = Ran-checks _ _ db λ _. settle_stop-Ran (vs 2) i _ db

  stop_now-Ran : (vs : Views) (i : Instance) (db : Db) → Ran (stop_now c vs q i) db
  unfolding stop_now
  stop_now-Ran vs i db =
      Ran-commits _ _ db
        λ db' h. (settled-Reach i.instance_id stopping db db' refl h, stop_unit_of-Ran vs i db')

  pub stop-Ran : (vs : Views) (db : Db) → Ran (stop c vs q) db
  unfolding stop
  stop-Ran vs db = Ran-reads _ _ db λ i _.
      Ran-if (is_early i.phase) _ _ db (λ _. Ran-raises Receipt _ db)
        (λ _.
          Ran-if
            (is_stopped i.phase
              && says true (unit_drained (vs 1) (show_unit (vs 0) i.machine_name)))
            _ _ db (λ _. Ran-finish c q _ _ _ db) (λ _. stop_now-Ran (later 2 vs) i db))

  no_show-Ran :
      (vs : Views) (i : Instance) (s : Option Show) (db : Db)
      → Ran
          (elim s as (λ _. Act Receipt) [
            | none ↦ raises uncertain_error
            | some w ↦ stop_now c (later 1 vs) q i
          ])
          db
  no_show-Ran vs i none db = Ran-raises Receipt _ db
  no_show-Ran vs i (some w) db = stop_now-Ran (later 1 vs) i db

  again-Ran : (vs : Views) (i : Instance) (s : Option Show) (db : Db) → Ran (again c vs q i s) db
  unfolding again
  again-Ran vs i s db =
      Ran-if (says true (unit_drained (vs 0) s)) _ _ db
        (λ _.
          Ran-commits _ _ db
            λ db' h. (settled-Reach i.instance_id stopped db db' refl h, Ran-finish c q _ _ _ db'))
        (λ _. no_show-Ran vs i s db)

  pub resume_stop-Ran : (vs : Views) (db : Db) → Ran (resume_stop c vs q) db
  unfolding resume_stop
  resume_stop-Ran vs db = Ran-reads _ _ db λ i _.
      Ran-if (is_early i.phase) _ _ db (λ _. Ran-raises Receipt _ db)
        (λ _. again-Ran (later 1 vs) i _ db)

  pub retire-Ran : (vs : Views) (db : Db) → Ran (retire c vs q) db
  unfolding retire
  retire-Ran vs db = Ran-reads _ _ db λ i _.
      Ran-commits _ _ db λ db' h. (retiring-Reach i.instance_id db db' h, stop_unit_of-Ran vs i db')

  pub resume_retire-Ran : (vs : Views) (db : Db) → Ran (resume_retire c vs q) db
  unfolding resume_retire
  resume_retire-Ran vs db =
      Ran-reads _ _ db
        λ i _. Ran-if i.retired _ _ db (λ _. resume_stop-Ran vs db) (λ _. retire-Ran vs db)
