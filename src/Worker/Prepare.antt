-- ===== src/Worker/Prepare.antt =====
-- `_machine_name`, `_set_highest_generation` and `_prepare` of console/worker.py.
use Prim.Native.Nat.{max}
use nexus_infra.Base.{
  ℕ, zero, suc, ◌+◌, ◌-◌, ◌*◌, ◌/◌, ◌%◌, ◌^◌, String, Bool, true, false, not, ◌&&◌, ◌||◌, List, [],
  ◌∷◌, ◌++◌, Option, none, some, str_eq, ◌==◌, leb, if◌then◌else◌, is_some,
}
use nexus_infra.Base.Strings.{codes, take}
use nexus_infra.Base.Table.{upsert, any}
use nexus_infra.Catalog.Definition.{Definition}
use nexus_infra.Worker.State.{
  Request, Slot, Bundle, Config, Instance, Phase, preparing, prepared, completed, Receipt, Db,
  is_held, get_instance, known_of,
}
use nexus_infra.Worker.Host.{
  Fault, refused, internal, Outcome, fault, done, demand, or_fault, Task, verify_mount,
  verify_closure, check_state_dirs, render_runtime_files, allocate_state_dirs, provision_secrets,
  claim_adopted, validate_adopted, View, Views, later, orphan_check,
}
use nexus_infra.Worker.Host as Host
use nexus_infra.Worker.Checks.{
  resolve, check_bundle_host, check_action_allowed, admission, require_binding_current,
  check_workload_drained, free_slot, known_generation,
}
use nexus_infra.Worker.Act.{Act, ◌>>=◌, ◌>>◌, reads, commits, update, in_phase, rival, finish}

abbrev nibble : ℕ → ℕ
nibble c = if leb c b'9' then c - b'0' else c - b'a' + 10

abbrev number : List ℕ → ℕ → ℕ
number [] acc = acc
number (c ∷ cs) acc = number cs (16 * acc + nibble c)

abbrev alphabet : String
alphabet = "abcdefghijklmnopqrstuvwxyz234567"

-- The text with the letter at a place of the alphabet in front.
letter : ℕ → String → String → String
letter n String.[] s = s
letter zero (String.◌∷◌ c cs) s = String.◌∷◌ c s
letter (suc n) (String.◌∷◌ c cs) s = letter n cs s

base32 : ℕ → ℕ → String
unfolding letter
base32 zero v = String.[]
base32 (suc k) v = letter (v / 32 ^ k % 32) alphabet (base32 k v)

-- `_machine_name`: the first ten base32 digits of the id stand for its first 50 bits.
unfoldable pub machine_name : String → String
unfolding base32
machine_name id = String.◌∷◌ "n" (base32 10 (number (take 13 (codes id)) 0 / 4))

-- `_set_highest_generation`
unfoldable pub bump : String → ℕ → Db → Db
bump w g db = record db {
  generations =
      upsert (λ k. k.workload_id)
        (record {
          workload_id = w;
          generation = elim (known_of db w) [ none ↦ g | some k ↦ max k.generation g ];
        })
        db.generations;
}

abbrev pub shares_name : Instance → Instance → Bool
shares_name i j =
    str_eq j.instance_id i.instance_id
    || str_eq j.slot_id i.slot_id
    || str_eq j.machine_name i.machine_name

-- INSERT INTO instances and `_set_highest_generation`; a violated constraint is an
-- instance-conflict.
unfoldable pub insert_instance : Instance → Db → Outcome Db
unfolding bump
insert_instance i db =
    if any (shares_name i) db.instances || any (rival i) db.instances
    then fault (refused "instance-conflict")
    else done (bump i.workload_id i.generation (record db { instances = db.instances ++ i ∷ [] }))

abbrev pub is_open : Phase → Bool
is_open preparing = true
is_open prepared = true
is_open _ = false

abbrev pub keeps_slot : Option String → String → Bool
keeps_slot none id = true
keeps_slot (some s) id = str_eq s id

abbrev pub same_flag : Bool → Bool → Bool
same_flag a b = if a then b else not b

-- What a prepare that is resumed asks of the row.
unfoldable pub resume_row : Config → Bool → Request → Instance → Outcome Bundle
resume_row c adopting q i =
    Host.◌>>◌
      (demand
        (str_eq i.workload_id q.workload_id
          && str_eq i.revision_digest q.revision_digest
          && i.generation == q.generation)
        (refused "instance-conflict"))
      (Host.◌>>◌ (demand (not i.retired) (refused "instance-retired")) (
        Host.◌>>◌ (demand (is_open i.phase) (refused "phase-conflict")) (
          Host.◌>>◌ (demand (same_flag i.adopted adopting) (refused "instance-conflict")) (
            Host.◌>>=◌ (require_binding_current c i) λ binding.
              Host.◌>>◌ (demand (keeps_slot q.slot_id i.slot_id) (refused "slot-conflict"))
                (resolve c i.workload_id i.revision_digest)))))

abbrev pub is_newer : Option ℕ → ℕ → Bool
is_newer none g = true
is_newer (some k) g = not (leb g k)

unfoldable pub fresh_row : Config → Request → Db → Outcome Bundle
fresh_row c q db = Host.◌>>=◌ (resolve c q.workload_id q.revision_digest) λ b.
    Host.◌>>◌
      (demand (is_newer (known_generation db q.workload_id) q.generation)
        (refused "generation-stale"))
      (done b)

unfoldable pub row_checks : Config → Bool → Request → Option Instance → Db → Outcome Bundle
unfolding resume_row fresh_row
row_checks c adopting q none db = fresh_row c q db
row_checks c adopting q (some i) db = resume_row c adopting q i

abbrev needs_no_secrets : Config → Definition → Bool
needs_no_secrets c d = c.secrets_ready || not (is_some d.secret_set_ref)

-- The checks that come before anything is written, of a new and of a known instance.
unfoldable pub prepare_checks :
    Config → Bool → Views → Request → Option Instance → Db → Outcome Bundle
prepare_checks c adopting vs q o db = Host.◌>>=◌ (row_checks c adopting q o db) λ b.
    Host.◌>>◌ (check_bundle_host c b) (
      Host.◌>>◌ (check_action_allowed b.definition "start" q.dependencies_resolved) (
        Host.◌>>◌ (demand (not (is_held db q.workload_id)) (refused "capture-held")) (
          Host.◌>>◌
            (demand (needs_no_secrets c b.definition) (refused "secret-provisioning-unavailable"))
            (Host.◌>>◌ ((vs 0).attempt verify_mount) (
              Host.◌>>◌ ((vs 1).attempt verify_closure) (
                Host.◌>>◌ (admission c db (vs 2) b.definition o)
                  (Host.◌>>◌ (orphan_check db (later 3 vs)) (done b))))))))

-- The directory of a new instance: a replica that can be adopted, or none.
directory_check : Bool → View → String → Outcome (Unit {0})
directory_check true v id = v.attempt (validate_adopted id)
directory_check false v id =
    Host.◌>>=◌ (v.exists_dir id) λ found. demand (not found) (refused "storage-state-conflict")

unfoldable pub slot_checks : Config → Bool → Views → Request → Db → Outcome Slot
unfolding directory_check
slot_checks c adopting vs q db = Host.◌>>◌ (check_workload_drained db (later 1 vs) q.workload_id) (
    Host.◌>>=◌ (free_slot c db q.slot_id)
      λ s. Host.◌>>◌ (directory_check adopting (vs 0) q.instance_id) (done s))

abbrev pub new_instance : Config → Bool → Request → Bundle → Slot → Instance
new_instance c adopting q b s = record {
  instance_id = q.instance_id;
  workload_id = q.workload_id;
  revision_digest = q.revision_digest;
  generation = q.generation;
  slot_id = s.id;
  machine_name = machine_name q.instance_id;
  phase = preparing;
  requirements = b.definition.requirements;
  binding = some (record {
    host_id = c.host_id;
    architecture = c.architecture;
    storage = c.storage;
    slot = s;
  });
  boot_id = "";
  permit_deadline = 0;
  permit = false;
  retired = false;
  adopted = adopting;
}

-- SET phase='prepared' and `_set_highest_generation`
unfoldable pub mark_prepared : Request → Db → Outcome Db
unfolding bump
mark_prepared q db =
    Host.◌>>=◌ (update q.instance_id (in_phase prepared) db)
      λ db'. done (bump q.workload_id q.generation db')

directories : Bool → String → Task
directories true id = claim_adopted id
directories false id = allocate_state_dirs id

-- The work on the files of an instance that is preparing.
unfoldable pub build : Config → Bool → Views → Request → Act Receipt
unfolding directories mark_prepared
build c adopting vs q = do
  reads (λ db. (vs 0).attempt (directories adopting q.instance_id))
  reads (λ db. (vs 1).attempt (provision_secrets q.instance_id))
  reads (λ db. (vs 2).attempt (render_runtime_files q.instance_id))
  commits (mark_prepared q)
  finish c q completed (some prepared) none

unfoldable pub rebuild : Config → Views → Request → Act Receipt
rebuild c vs q = do
  reads (λ db. (vs 0).attempt (check_state_dirs q.instance_id))
  reads (λ db. (vs 1).attempt (render_runtime_files q.instance_id))
  finish c q completed (some prepared) none

abbrev pub is_prepared : Phase → Bool
is_prepared prepared = true
is_prepared _ = false

-- The streams of views: 0 for the checks, 1 for the slot and its directory, 2 for the work.
unfoldable pub prepare_row : Config → Bool → (ℕ → Views) → Request → Option Instance → Act Receipt
unfolding prepare_checks slot_checks insert_instance build rebuild
prepare_row c adopting vss q none = do
  b ← reads (prepare_checks c adopting (vss 0) q none)
  s ← reads (slot_checks c adopting (vss 1) q)
  commits (insert_instance (new_instance c adopting q b s))
  build c adopting (vss 2) q
prepare_row c adopting vss q (some i) = do
  b ← reads (prepare_checks c adopting (vss 0) q (some i))
  if is_prepared i.phase then rebuild c (vss 2) q else build c adopting (vss 2) q

-- `_prepare`
unfoldable pub prepare : Config → Bool → (ℕ → Views) → Request → Act Receipt
unfolding prepare_row
prepare c adopting vss q = do
  o ← reads (λ db. done (get_instance db q.instance_id))
  prepare_row c adopting vss q o
