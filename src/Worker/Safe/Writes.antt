-- ===== src/Worker/Safe/Writes.antt =====
-- The invariant under single writes.
use nexus_infra.Base.{
  String, true, false, [], ◌∷◌, ◌++◌, ◌≡◌, refl, sym, subst, ap, inl, inr, str_eq, eq_iff, arith,
  Bool-cases, ◌∙◌,
}
use nexus_infra.Base.Table.{any, any-row}
use nexus_infra.Worker.State.{Instance, preparing, Db, is_reserve, is_held}
use nexus_infra.Worker.Checks.{known_generation}
use nexus_infra.Worker.Act.{put, rival}
use nexus_infra.Worker.Prepare.{bump, shares_name}
use nexus_infra.Worker.Steps.{Change, Fits, checked, before}
use nexus_infra.Worker.Safe.{Has, reaches, Earned, IsSafe}
use nexus_infra.Worker.Safe.Rows.{
  put-Has, append-Has, rival-none, starting-reserve, Keeps, Change-Keeps, Change-Earned,
  reaches-bump, bump-reaches, bump_other,
}

-- Two reserved rows of one workload that are no rivals have one name.
pub named_alike :
    (i j : Instance)
    → rival i j ≡ false
    → is_reserve i.phase ≡ true
    → is_reserve j.phase ≡ true
    → i.workload_id ≡ j.workload_id
    → i.instance_id ≡ j.instance_id
named_alike i j free a b same =
    ground (arith, eq_iff j.workload_id i.workload_id, eq_iff j.instance_id i.instance_id)

-- The rows that a changed row would meet have its name.
met :
    (db : Db) (i j x : Instance)
    → IsSafe db
    → Has db i
    → Keeps i j
    → Fits db i j
    → Has db x
    → is_reserve j.phase ≡ true
    → is_reserve x.phase ≡ true
    → j.workload_id ≡ x.workload_id
    → j.instance_id ≡ x.instance_id
met db i j x safe has keeps (checked free) there a b same =
    named_alike j x (rival-none db j x free there) a b same
met db i j x safe has keeps (before was) there a b same =
    keeps.name
    ∙ ap (λ t. t.instance_id) (safe.single i x has there (was a) b (sym keeps.workload ∙ same))

module _ (db : Db) (i j : Instance) (safe : IsSafe db) (has : Has db i) (keeps : Keeps i j)
    (fits : Fits db i j) where
  -- Another row is in no conflict with the changed one.
  clash :
      (x : Instance)
      → Has db x
      → str_eq j.instance_id x.instance_id ≡ false
      → is_reserve j.phase ≡ true
      → is_reserve x.phase ≡ true
      → j.workload_id ≡ x.workload_id
      → ⊥
  clash x there other a b same =
      ground
        (arith, met db i j x safe has keeps fits there a b same, eq_iff j.instance_id x.instance_id)

  put-single :
      (x y : Instance)
      → Has (put db j) x
      → Has (put db j) y
      → is_reserve x.phase ≡ true
      → is_reserve y.phase ≡ true
      → x.workload_id ≡ y.workload_id
      → x ≡ y
  put-single x y hx hy a b same = elim (put-Has db j x hx) [
    | inl ex ↦ elim (put-Has db j y hy) [
      | inl ey ↦ ex ∙ sym ey
      | inr (there, other) ↦ absurd (clash y there other (rw (sym ex) a) b (rw (sym ex) same))
    ]
    | inr (therex, otherx) ↦ elim (put-Has db j y hy) [
      | inl ey ↦ absurd (clash x therex otherx (rw (sym ey) b) a (rw (sym ey) (sym same)))
      | inr (there, other) ↦ safe.single x y therex there a b same
    ]
  ]

  put-recorded :
      (x : Instance)
      → Has (put db j) x
      → reaches (known_generation db x.workload_id) x.generation ≡ true
  put-recorded x hx = elim (put-Has db j x hx) [
    | inl e ↦ rw (e, keeps.workload, keeps.generation) (safe.recorded i has)
    | inr (there, other) ↦ safe.recorded x there
  ]

-- What an instance has earned under one database it has earned under another with the same captures
-- and generations of its workload.
pub Earned-moved :
    (a b : Db) (x : Instance)
    → Earned a x
    → (is_held a x.workload_id ≡ false → is_held b x.workload_id ≡ false)
    → known_generation b x.workload_id ≡ known_generation a x.workload_id
    → Earned b x
Earned-moved a b x e held known = record {
  launching = e.launching;
  may = record { active = e.may.active; free = held e.may.free; newest = rw known e.may.newest };
}

put-Earned :
    (db : Db) (i j : Instance)
    → IsSafe db
    → Has db i
    → Change db i j
    → (x : Instance) → Has (put db j) x
    → x.permit ≡ true
    → Earned (put db j) x
put-Earned db i j safe has change x hx h = elim (put-Has db j x hx) [
  | inl e ↦
      Earned-moved db (put db j) x
        (subst (Earned db) (sym e) (Change-Earned db i j (safe.earned i has) change (rw (sym e) h)))
        (λ f. f) refl
  | inr (there, other) ↦ Earned-moved db (put db j) x (safe.earned x there h) (λ f. f) refl
]

pub put-IsSafe :
    (db : Db) (i j : Instance)
    → IsSafe db
    → Has db i
    → Change db i j
    → Fits db i j
    → IsSafe (put db j)
put-IsSafe db i j safe has change fits =
    let keeps = Change-Keeps db i j change in
    record {
      single = put-single db i j safe has keeps fits;
      earned = put-Earned db i j safe has change;
      recorded = put-recorded db i j safe has keeps fits;
    }

module _ (db : Db) (i : Instance) (safe : IsSafe db)
    (fresh : any (shares_name i) db.instances ≡ false) (free : any (rival i) db.instances ≡ false)
    (young : i.phase ≡ preparing) (calm : i.permit ≡ false) where
  abbrev pub wider : Db
  wider = record db { instances = db.instances ++ i ∷ [] }

  abbrev pub inserted : Db
  inserted = bump i.workload_id i.generation wider

  found_bumped : (x : Instance) → Has inserted x → Has wider x
  unfolding bump
  found_bumped x h = h

  held_bumped : (w : String) → is_held inserted w ≡ is_held db w
  unfolding bump
  held_bumped w = refl

  known_wider : (w : String) → known_generation wider w ≡ known_generation db w
  known_wider w = refl

  newcomer-clash :
      (x : Instance) → Has db x → is_reserve x.phase ≡ true → i.workload_id ≡ x.workload_id → ⊥
  newcomer-clash x there b same =
      let alike = named_alike i x (rival-none db i x free there) (rw young refl) b same in
      ground (
        arith,
        any-row (shares_name i) (λ t. t.instance_id) x.instance_id db.instances there,
        eq_iff x.instance_id i.instance_id,
        alike,
      )

  inserted-single :
      (x y : Instance)
      → Has wider x
      → Has wider y
      → is_reserve x.phase ≡ true
      → is_reserve y.phase ≡ true
      → x.workload_id ≡ y.workload_id
      → x ≡ y
  inserted-single x y hx hy a b same = elim (append-Has db i x hx) [
    | inl ex ↦ elim (append-Has db i y hy) [
      | inl ey ↦ ex ∙ sym ey
      | inr there ↦ absurd (newcomer-clash y there b (rw (sym ex) same))
    ]
    | inr therex ↦ elim (append-Has db i y hy) [
      | inl ey ↦ absurd (newcomer-clash x therex a (rw (sym ey) (sym same)))
      | inr there ↦ safe.single x y therex there a b same
    ]
  ]

  inserted-Earned : (x : Instance) → Has wider x → x.permit ≡ true → Earned inserted x
  inserted-Earned x hx h = elim (append-Has db i x hx) [
    | inl e ↦ let bad : false ≡ true = sym calm ∙ (rw (sym e) h) in cc
    | inr there ↦
        let e = safe.earned x there h in
        elim (Bool-cases (str_eq i.workload_id x.workload_id)) [
          | inl same ↦ absurd (
              newcomer-clash x there (starting-reserve x.phase e.launching)
                (ground (arith, eq_iff i.workload_id x.workload_id)))
          | inr other ↦
              Earned-moved db inserted x e (λ f. held_bumped x.workload_id ∙ f)
                (bump_other i.workload_id x.workload_id i.generation wider other)
        ]
  ]

  inserted-recorded :
      (x : Instance)
      → Has wider x
      → reaches (known_generation inserted x.workload_id) x.generation ≡ true
  inserted-recorded x hx = elim (append-Has db i x hx) [
    | inl e ↦ rw e (bump-reaches i.workload_id i.generation wider)
    | inr there ↦
        reaches-bump i.workload_id x.workload_id i.generation x.generation wider
          (safe.recorded x there)
  ]

  pub inserted-IsSafe : IsSafe inserted
  inserted-IsSafe = record {
    single = λ x y hx hy. inserted-single x y (found_bumped x hx) (found_bumped y hy);
    earned = λ x hx. inserted-Earned x (found_bumped x hx);
    recorded = λ x hx. inserted-recorded x (found_bumped x hx);
  }
