-- ===== src/Worker/Safe/Steps.antt =====
-- The invariant under steps.
use nexus_infra.Base.{
  String, true, false, List, [], ◌∷◌, ◌++◌, some, ◌≡◌, refl, sym, subst, ap, inl, inr, str_eq,
  eq_iff, arith, Bool-cases, ◌∙◌,
}
use nexus_infra.Base.Table.{any, row, upsert, any-append}
use nexus_infra.Worker.State.{
  Instance, Phase, preparing, stopping, Capture, Known, Operation, Db, is_reserve, get_instance,
  known_of, is_held, capture_row,
}
use nexus_infra.Worker.State as State
use nexus_infra.Worker.Checks.{known_generation}
use nexus_infra.Worker.Act.{put, rival, settled}
use nexus_infra.Worker.Prepare.{bump}
use nexus_infra.Worker.Capture.{release}
use nexus_infra.Worker.Steps.{
  settles, checked, Step, opens, closes, changes, inserts, bumps, holds, releases, Reach, here,
  next,
}
use nexus_infra.Worker.Safe.{Has, Earned, IsSafe}
use nexus_infra.Worker.Safe.Rows.{put-Has, starting-reserve, rival-none, bump_again}
use nexus_infra.Worker.Safe.Writes.{Earned-moved, put-IsSafe, inserted-IsSafe, named_alike}

-- A write that leaves the instances keeps the database safe if it frees, and keeps the generations.
kept-IsSafe :
    (a b : Db)
    → IsSafe a
    → b.instances ≡ a.instances
    → ((w : String) → known_generation b w ≡ known_generation a w)
    → ((w : String) → is_held a w ≡ false → is_held b w ≡ false)
    → IsSafe b
kept-IsSafe a b safe rows known held =
    let back : (x : Instance) → Has b x → Has a x =
      λ x. subst (λ is. row (λ t. t.instance_id) x.instance_id is ≡ some x) rows in
    record {
      single = λ x y hx hy. safe.single x y (back x hx) (back y hy);
      earned = λ x hx h.
          Earned-moved a b x (safe.earned x (back x hx) h) (held x.workload_id)
            (known x.workload_id);
      recorded = λ x hx. rw (known x.workload_id) (safe.recorded x (back x hx));
    }

bumped-IsSafe :
    (db : Db) (i : Instance) → IsSafe db → Has db i → IsSafe (bump i.workload_id i.generation db)
unfolding bump
bumped-IsSafe db i safe has =
    kept-IsSafe db _ safe refl
      (λ w. bump_again i.workload_id w i.generation db (safe.recorded i has)) (λ w f. f)

-- A released capture holds nothing.
released-any :
    (w : String) (k : Capture) (ks : List Capture)
    → any (State.holds w) ks ≡ false
    → any (State.holds w) (upsert (λ t. t.capture_id) (record k { held = false }) ks) ≡ false
unfolding upsert
released-any w k [] h = refl
released-any w k (x ∷ xs) h = ground (arith, released-any w k xs)

module _ (db : Db) (i : Instance) (k : Capture) (safe : IsSafe db) (has : Has db i)
    (own : k.workload_id ≡ i.workload_id)
    (free : any (rival (settled stopping i)) db.instances ≡ false) where
  abbrev halted : Db
  halted = put db (settled stopping i)

  halted-IsSafe : IsSafe halted
  halted-IsSafe =
      put-IsSafe db i (settled stopping i) safe has (settles stopping refl refl) (checked free)

  abbrev captured : Db
  captured = record halted { captures = db.captures ++ k ∷ [] }

  captured_free :
      (w : String) → is_held db w ≡ false → State.holds w k ≡ false → is_held captured w ≡ false
  captured_free w h g = ground (arith, any-append (State.holds w) db.captures (k ∷ []))

  captured-clash :
      (x : Instance)
      → Has db x
      → str_eq i.instance_id x.instance_id ≡ false
      → is_reserve x.phase ≡ true
      → i.workload_id ≡ x.workload_id
      → ⊥
  captured-clash x there other b same = ground (
    arith,
    named_alike (settled stopping i) x (rival-none db (settled stopping i) x free there) refl b
        same,
    eq_iff i.instance_id x.instance_id,
  )

  captured-Earned : (x : Instance) → Has halted x → x.permit ≡ true → Earned captured x
  captured-Earned x hx h = elim (put-Has db (settled stopping i) x hx) [
    | inl e ↦ let bad : false ≡ true = sym (ap (λ t. t.permit) e) ∙ h in cc
    | inr (there, other) ↦
        let e = safe.earned x there h in
        elim (Bool-cases (State.holds x.workload_id k)) [
          | inl bad ↦ absurd (
              captured-clash x there other (starting-reserve x.phase e.launching)
                (ground (arith, eq_iff k.workload_id x.workload_id)))
          | inr fine ↦ Earned-moved db captured x e (λ f. captured_free x.workload_id f fine) refl
        ]
  ]

  captured-IsSafe : IsSafe captured
  captured-IsSafe = record {
    single = λ x y hx hy. halted-IsSafe.single x y hx hy;
    earned = captured-Earned;
    recorded = λ x hx. halted-IsSafe.recorded x hx;
  }

pub Step-IsSafe : (db db' : Db) → Step db db' → IsSafe db → IsSafe db'
Step-IsSafe db db' (opens o new e) safe =
    subst IsSafe (sym e) (kept-IsSafe db _ safe refl (λ w. refl) (λ w f. f))
Step-IsSafe db db' (closes o a found was e) safe =
    subst IsSafe (sym e) (kept-IsSafe db _ safe refl (λ w. refl) (λ w f. f))
Step-IsSafe db db' (changes i j has change fits e) safe =
    subst IsSafe (sym e) (put-IsSafe db i j safe has change fits)
Step-IsSafe db db' (inserts i fresh free newer young calm e) safe =
    subst IsSafe (sym e) (inserted-IsSafe db i safe fresh free young calm)
Step-IsSafe db db' (bumps i has e) safe = subst IsSafe (sym e) (bumped-IsSafe db i safe has)
Step-IsSafe db db' (holds i k has own unheld free e) safe =
    subst IsSafe (sym e) (captured-IsSafe db i k safe has own free)
Step-IsSafe db db' (releases k has e) safe =
    subst IsSafe (sym e)
      (kept-IsSafe db (release k db) safe refl (λ w. refl) (λ w. released-any w k db.captures))

pub Reach-IsSafe : {a b : Db} → Reach a b → IsSafe a → IsSafe b
Reach-IsSafe here safe = safe
Reach-IsSafe (next {db'} {db''} r s) safe = Step-IsSafe db' db'' s (Reach-IsSafe r safe)
