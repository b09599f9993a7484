-- ===== src/Worker/Safe/Rows.antt =====
-- The rows of a table after one write, and what a change of an instance keeps.
use Prim.Native.Nat.{max}
use nexus_infra.Base.{
  ℕ, String, Bool, true, false, [], ◌∷◌, ◌++◌, Option, none, some, ◌≡◌, refl, sym, subst, ap, ◌⊎◌,
  inl, inr, str_eq, eq_iff, eq_refl, arith, Bool-cases, if◌then◌else◌, ◌∙◌, Option-cases,
}
use nexus_infra.Base.Table.{any, row, row-upsert, row-append, any-row}
use nexus_infra.Worker.State.{
  Instance, Phase, starting, stopping, Known, Db, is_reserve, get_instance, known_of,
}
use nexus_infra.Worker.Checks.{known_generation}
use nexus_infra.Worker.Act.{put, rival}
use nexus_infra.Worker.Prepare.{bump}
use nexus_infra.Worker.Steps.{
  Change, unchanged, settles, moves, retires, grants, consumes, is_starting,
}
use nexus_infra.Worker.Safe.{Has, reaches, Earned}

module _ (db : Db) (j : Instance) where
  put-cases :
      (x : Instance) (b : Bool)
      → str_eq j.instance_id x.instance_id ≡ b
      → Has (put db j) x
      → (x ≡ j) ⊎ (Has db x × (b ≡ false))
  put-cases x true same h =
      inl (ground (arith, row-upsert (λ t. t.instance_id) x.instance_id j db.instances))
  put-cases x false other h =
      inr (ground (arith, row-upsert (λ t. t.instance_id) x.instance_id j db.instances), refl)

  pub put-Has :
      (x : Instance)
      → Has (put db j) x
      → (x ≡ j) ⊎ (Has db x × (str_eq j.instance_id x.instance_id ≡ false))
  put-Has x h = elim (put-cases x _ refl h) [ inl e ↦ inl e | inr e ↦ inr e ]

  pub append-Has :
      (x : Instance)
      → row (λ t. t.instance_id) x.instance_id (db.instances ++ j ∷ []) ≡ some x
      → (x ≡ j) ⊎ Has db x
  append-Has x h = elim (Option-cases (get_instance db x.instance_id)) [
    | inl gone ↦ inl (ground (arith, row-append (λ t. t.instance_id) x.instance_id j db.instances))
    | inr (y, found) ↦
        inr (ground (arith, row-append (λ t. t.instance_id) x.instance_id j db.instances))
  ]

  -- No other row of the table is a rival.
  pub rival-none :
      (x : Instance) → any (rival j) db.instances ≡ false → Has db x → rival j x ≡ false
  rival-none x free h = elim (Bool-cases (rival j x)) [
    | inl bad ↦
        ground (arith, any-row (rival j) (λ t. t.instance_id) x.instance_id db.instances h bad)
    | inr fine ↦ fine
  ]

pub starting-reserve : (p : Phase) → is_starting p ≡ true → is_reserve p ≡ true
starting-reserve starting h = refl
starting-reserve _ h = cc

-- A change keeps what an instance was prepared with, and does not undo its retirement.
pub record Keeps (i j : Instance) : Type 0 where
  pub name : j.instance_id ≡ i.instance_id
  pub workload : j.workload_id ≡ i.workload_id
  pub generation : j.generation ≡ i.generation
  pub revision : j.revision_digest ≡ i.revision_digest
  pub slot : j.slot_id ≡ i.slot_id
  pub machine : j.machine_name ≡ i.machine_name
  pub bound : j.binding ≡ i.binding
  pub required : j.requirements ≡ i.requirements
  pub gone : i.retired ≡ true → j.retired ≡ true

pub Keeps-refl : (i : Instance) → Keeps i i
Keeps-refl i = record {
  name = refl;
  workload = refl;
  generation = refl;
  revision = refl;
  slot = refl;
  machine = refl;
  bound = refl;
  required = refl;
  gone = λ h. h;
}

pub Keeps-trans : (i j k : Instance) → Keeps i j → Keeps j k → Keeps i k
Keeps-trans i j k a b = record {
  name = b.name ∙ a.name;
  workload = b.workload ∙ a.workload;
  generation = b.generation ∙ a.generation;
  revision = b.revision ∙ a.revision;
  slot = b.slot ∙ a.slot;
  machine = b.machine ∙ a.machine;
  bound = b.bound ∙ a.bound;
  required = b.required ∙ a.required;
  gone = λ h. b.gone (a.gone h);
}

-- The columns that the worker changes.
changed-Keeps :
    (i : Instance) (p : Phase) (permit : Bool) (boot : String) (t : ℕ) (r : Bool)
    → (i.retired ≡ true → r ≡ true)
    → Keeps i
        (record i { phase = p; permit = permit; boot_id = boot; permit_deadline = t; retired = r })
changed-Keeps i p permit boot t r h = record {
  name = refl;
  workload = refl;
  generation = refl;
  revision = refl;
  slot = refl;
  machine = refl;
  bound = refl;
  required = refl;
  gone = h;
}

pub Change-Keeps : (db : Db) (i j : Instance) → Change db i j → Keeps i j
Change-Keeps db i j (unchanged e) = subst (Keeps i) (sym e) (Keeps-refl i)
Change-Keeps db i j (settles p calm e) =
    subst (Keeps i) (sym e) (changed-Keeps i p false i.boot_id i.permit_deadline i.retired (λ h. h))
Change-Keeps db i j (moves p calm was e) =
    subst (Keeps i) (sym e)
      (changed-Keeps i p i.permit i.boot_id i.permit_deadline i.retired (λ h. h))
Change-Keeps db i j (retires e) =
    subst (Keeps i) (sym e)
      (changed-Keeps i stopping false i.boot_id i.permit_deadline true (λ h. refl))
Change-Keeps db i j (grants b t may e) =
    subst (Keeps i) (sym e) (changed-Keeps i starting true b t i.retired (λ h. h))
Change-Keeps db i j (consumes e) =
    subst (Keeps i) (sym e)
      (changed-Keeps i i.phase false i.boot_id i.permit_deadline i.retired (λ h. h))

-- A row holds a permit after a change only if it has earned it.
pub Change-Earned :
    (db : Db) (i j : Instance)
    → (i.permit ≡ true → Earned db i)
    → Change db i j
    → j.permit ≡ true
    → Earned db j
Change-Earned db i j was (unchanged e) h =
    subst (Earned db) (sym e) (was (sym (ap (λ k. k.permit) e) ∙ h))
Change-Earned db i j was (settles p calm e) h =
    let bad : false ≡ true = sym (ap (λ k. k.permit) e) ∙ h in cc
Change-Earned db i j was (moves p calm old e) h =
    let bad : true ≡ false = sym (was (sym (ap (λ k. k.permit) e) ∙ h)).launching ∙ old in cc
Change-Earned db i j was (retires e) h =
    let bad : false ≡ true = sym (ap (λ k. k.permit) e) ∙ h in cc
Change-Earned db i j was (grants b t may e) h = subst (Earned db) (sym e) (record {
  launching = refl;
  may = record { active = may.active; free = may.free; newest = may.newest };
})
Change-Earned db i j was (consumes e) h =
    let bad : false ≡ true = sym (ap (λ k. k.permit) e) ∙ h in cc

abbrev raised : Option Known → ℕ → ℕ
raised none g = g
raised (some k) g = max k.generation g

known-bump :
    (w v : String) (g : ℕ) (db : Db) (b : Bool)
    → str_eq w v ≡ b
    → known_of (bump w g db) v ≡ (
        if b
        then some (record { workload_id = w; generation = raised (known_of db w) g })
        else known_of db v)
unfolding bump
known-bump w v g db b same = elim (Option-cases (known_of db w)) [
  | inl gone ↦ ground (
    arith,
    row-upsert (λ k. k.workload_id) v (record { workload_id = w; generation = g }) db.generations,
  )
  | inr (k, found) ↦ ground (
    arith,
    row-upsert (λ k. k.workload_id) v (record { workload_id = w; generation = max k.generation g })
        db.generations,
  )
]

pub reaches-bump :
    (w v : String) (g x : ℕ) (db : Db)
    → reaches (known_generation db v) x ≡ true
    → reaches (known_generation (bump w g db) v) x ≡ true
reaches-bump w v g x db h = ground (arith, known-bump w v g db _ refl, eq_iff w v)

pub bump-reaches :
    (w : String) (g : ℕ) (db : Db) → reaches (known_generation (bump w g db) w) g ≡ true
bump-reaches w g db = ground (arith, known-bump w w g db true (eq_refl w))

-- Nothing changes when it is known already.
pub bump_again :
    (w v : String) (g : ℕ) (db : Db)
    → reaches (known_generation db w) g ≡ true
    → known_generation (bump w g db) v ≡ known_generation db v
bump_again w v g db h = ground (arith, known-bump w v g db _ refl, eq_iff w v)

pub bump_other :
    (w v : String) (g : ℕ) (db : Db)
    → str_eq w v ≡ false
    → known_generation (bump w g db) v ≡ known_generation db v
bump_other w v g db h = ground (arith, known-bump w v g db false h)
