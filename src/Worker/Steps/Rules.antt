-- ===== src/Worker/Steps/Rules.antt =====
-- One rule for each way in which the methods of the worker are put together.
use nexus_infra.Base.{
  String, Bool, true, false, Option, none, some, ◌≡◌, refl, sym, subst, inl, inr, arith, Bool-cases,
  if◌then◌else◌,
}
use nexus_infra.Base.Table.{any, row-key, row-upsert}
use nexus_infra.Base.{eq_refl}
use nexus_infra.Worker.State.{
  Request, Config, Phase, Status, Instance, Operation, Db, get_instance, operation_row,
}
use nexus_infra.Worker.Host as Host
use nexus_infra.Worker.Host.{Fault, Outcome, fault, done}
use nexus_infra.Worker.Act.{
  Act, chain, ◌>>=◌, ◌>>◌, raises, reads, commits, update, put_free, put, rival, settled, finish,
  receipt, is_pending, answered,
}
use nexus_infra.Worker.Stop.{retiring}
use nexus_infra.Worker.Steps.{
  Change, settles, retires, checked, changes, closes, Reach, here, Reach-trans, Reach-step,
  is_starting,
}

-- What the method commits from this database on, whether it returns or raises.
pub record Ran {A : Type 0} (m : Act A) (db : Db) : Type 0 where
  pub reach : Reach db (m db).1

module _ {A B : Type 0} where
  chain-Reach :
      (db : Db) (r : Outcome A × Db) (k : A → Act B)
      → Reach db r.1
      → ((a : A) → r.0 ≡ done a → Reach r.1 (k a r.1).1)
      → Reach db (chain r k).1
  unfolding chain
  chain-Reach db (fault e, db') k h rest = h
  chain-Reach db (done a, db') k h rest = Reach-trans h (rest a refl)

  pub Ran-bind :
      (m : Act A) (k : A → Act B) (db : Db)
      → Ran m db
      → ((a : A) → (m db).0 ≡ done a → Ran (k a) (m db).1)
      → Ran (m >>= k) db
  unfolding ◌>>=◌
  Ran-bind m k db h rest = record {
    reach = chain-Reach db (m db) k h.reach (λ a e. (rest a e).reach);
  }

  pub Ran-reads :
      (f : Db → Outcome A) (k : A → Act B) (db : Db)
      → ((a : A) → f db ≡ done a → Ran (k a) db)
      → Ran (reads f >>= k) db
  unfolding ◌>>=◌ reads
  Ran-reads f k db h = record { reach = chain-Reach db (f db, db) k here (λ a e. (h a e).reach) }

pub Ran-raises : (B : Type 0) (e : Fault) (db : Db) → Ran (raises {A = B} e) db
unfolding raises
Ran-raises B e db = record { reach = here }

module _ {B : Type 0} where
  pub Ran-checks :
      (f : Db → Outcome (Unit {0})) (k : Act B) (db : Db)
      → (f db ≡ done tt → Ran k db)
      → Ran (reads f >> k) db
  unfolding ◌>>◌
  Ran-checks f k db h = Ran-reads f (λ _. k) db (λ a e. h e)

  committed-Reach :
      (f : Db → Outcome Db) (k : Act B) (db : Db) (r : Outcome Db)
      → f db ≡ r
      → ((db' : Db) → r ≡ done db' → Reach db db' × Ran k db')
      → Reach db ((commits f >> k) db).1
  unfolding ◌>>◌ ◌>>=◌ chain commits
  committed-Reach f k db (fault e) same h = rw same here
  committed-Reach f k db (done db') same h =
      let (s, rest) = h db' refl in rw same (Reach-trans s rest.reach)

  pub Ran-commits :
      (f : Db → Outcome Db) (k : Act B) (db : Db)
      → ((db' : Db) → f db ≡ done db' → Reach db db' × Ran k db')
      → Ran (commits f >> k) db
  Ran-commits f k db h = record { reach = committed-Reach f k db (f db) refl h }

  pub Ran-if :
      (b : Bool) (m n : Act B) (db : Db)
      → (b ≡ true → Ran m db)
      → (b ≡ false → Ran n db)
      → Ran (if b then m else n) db
  Ran-if true m n db h g = h refl
  Ran-if false m n db h g = g refl

-- How a chain of checks came to its end.
pub bind-done :
    {A B : Type 0} (m : Outcome A) (k : A → Outcome B) (b : B)
    → Host.◌>>=◌ m k ≡ done b
    → (a : A) × (m ≡ done a) × (k a ≡ done b)
bind-done (fault e) k b h = cc
bind-done (done a) k b h = (a, refl, h)

pub done-injective : {A : Type 0} {a b : A} → done a ≡ done b → a ≡ b
done-injective e = cc

-- What an UPDATE of a row that is there does.
pub update-found :
    (k : String) (f : Instance → Instance) (db db' : Db) (i : Instance)
    → get_instance db k ≡ some i
    → update k f db ≡ done db'
    → (any (rival (f i)) db.instances ≡ false) × (db' ≡ put db (f i))
unfolding update put_free
update-found k f db db' i found h = ground arith

pub found_key :
    (db : Db) (k : String) (i : Instance) → get_instance db k ≡ some i → i.instance_id ≡ k
found_key db k i found = row-key (λ t. t.instance_id) k db.instances found

pub found_self :
    (db : Db) (k : String) (i : Instance)
    → get_instance db k ≡ some i
    → get_instance db i.instance_id ≡ some i
found_self db k i found =
    subst (λ x. get_instance db x ≡ some i) (sym (found_key db k i found)) found

pub get_instance-put : (db : Db) (i : Instance) → get_instance (put db i) i.instance_id ≡ some i
get_instance-put db i =
    rw (row-upsert (λ t. t.instance_id) i.instance_id i db.instances, eq_refl i.instance_id)

update-missing :
    (k : String) (f : Instance → Instance) (db db' : Db)
    → get_instance db k ≡ none
    → update k f db ≡ done db'
    → db' ≡ db
unfolding update
update-missing k f db db' gone h = ground arith

-- An UPDATE that makes an allowed change of the row, if there is one.
update-Reach :
    (k : String) (f : Instance → Instance) (db db' : Db) (o : Option Instance)
    → get_instance db k ≡ o
    → ((i : Instance) → o ≡ some i → Change db i (f i))
    → update k f db ≡ done db'
    → Reach db db'
update-Reach k f db db' none gone change h =
    subst (Reach db) (sym (update-missing k f db db' gone h)) here
update-Reach k f db db' (some i) found change h =
    let (free, same) = update-found k f db db' i found h in
    Reach-step (changes i (f i) (found_self db k i found) (change i refl) (checked free) same)

pub settled-Reach :
    (k : String) (p : Phase) (db db' : Db)
    → is_starting p ≡ false
    → update k (settled p) db ≡ done db'
    → Reach db db'
settled-Reach k p db db' calm =
    update-Reach k (settled p) db db' (get_instance db k) refl (λ i _. settles p calm refl)

pub retiring-Reach : (k : String) (db db' : Db) → update k retiring db ≡ done db' → Reach db db'
retiring-Reach k db db' =
    update-Reach k retiring db db' (get_instance db k) refl (λ i _. retires refl)

-- The same for a change that the row which is there allows.
pub changed-Reach :
    (k : String) (f : Instance → Instance) (db db' : Db) (i : Instance)
    → get_instance db k ≡ some i
    → Change db i (f i)
    → update k f db ≡ done db'
    → Reach db db'
changed-Reach k f db db' i found change =
    update-Reach k f db db' (some i) found (λ j same. subst (λ x. Change db x (f x)) (cc) change)

-- `_finish` closes a pending operation or changes nothing.
finish-Reach :
    (c : Config) (q : Request) (s : Status) (p : Option Phase) (e : Option String) (db : Db)
    (o : Option Operation)
    → operation_row db q.operation_id ≡ o
    → Reach db (finish c q s p e db).1
unfolding finish
finish-Reach c q s p e db none found = rw found here
finish-Reach c q s p e db (some o) found = elim (Bool-cases (is_pending o.status)) [
  | inl open_ ↦
      rw (found, open_)
        (Reach-step (
          closes o (receipt c db q s p e)
            (subst (λ k. operation_row db k ≡ some o)
              (sym (row-key (λ t. t.operation_id) q.operation_id db.operations found)) found)
            open_ refl))
  | inr shut ↦ elim (Bool-cases (answered o (receipt c db q s p e))) [
    | inl same ↦ rw (found, shut, same) here
    | inr other ↦ rw (found, shut, other) here
  ]
]

pub Ran-finish :
    (c : Config) (q : Request) (s : Status) (p : Option Phase) (e : Option String) (db : Db)
    → Ran (finish c q s p e) db
Ran-finish c q s p e db = record {
  reach = finish-Reach c q s p e db (operation_row db q.operation_id) refl;
}
