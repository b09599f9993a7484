-- ===== src/Policy/Plan/Order.antt =====
-- The order of a plan.
use nexus_infra.Base.{
  ◌≡◌, refl, subst, arith, inl, inr, Bool, true, ◌&&◌, List, [], ◌∷◌, leb, Bool-cases,
}
use nexus_infra.Base.Result.{ok, require, failure, >>=-eq-ok, ok-injective}
use mathlib.Core.List.{Perm}
use mathlib.Core.List.Perm
use nexus_infra.Base.Table.{all, all_mono}
use nexus_infra.Json.Value.{Items, arr}
use nexus_infra.Json.Checks.{items_length}
use nexus_infra.Policy.Plan.{Due, entries, before, insert_due, sort_due, plan}

-- No item is more overdue than one that stands before it.
abbrev pub is_ordered : List Due → Bool
is_ordered [] = true
is_ordered (d ∷ ds) = all (λ e. leb e.overdue_by d.overdue_by) ds && is_ordered ds

insert-all :
    (f : Due → Bool) (d : Due) (ds : List Due)
    → f d ≡ true
    → all f ds ≡ true
    → all f (insert_due d ds) ≡ true
unfolding insert_due
insert-all f d [] here rest = ground arith
insert-all f d (e ∷ es) here rest = ground (arith, insert-all f d es)

later-all :
    (d e : Due) (es : List Due)
    → leb e.overdue_by d.overdue_by ≡ true
    → all (λ x. leb x.overdue_by e.overdue_by) es ≡ true
    → all (λ x. leb x.overdue_by d.overdue_by) es ≡ true
later-all d e es h = all_mono (λ x. leb x.overdue_by e.overdue_by) _ es (λ x g. ground arith)

insert-is_ordered :
    (d : Due) (ds : List Due) → is_ordered ds ≡ true → is_ordered (insert_due d ds) ≡ true
unfolding insert_due
insert-is_ordered d [] h = refl
insert-is_ordered d (e ∷ es) h = ground (
  arith,
  later-all d e es,
  insert-all (λ x. leb x.overdue_by e.overdue_by) d es,
  insert-is_ordered d es,
)

sort-is_ordered : (ds : List Due) → is_ordered (sort_due ds) ≡ true
unfolding sort_due
sort-is_ordered [] = refl
sort-is_ordered (d ∷ ds) = insert-is_ordered d (sort_due ds) (sort-is_ordered ds)

insert-Perm : (d : Due) (ds : List Due) → Perm (insert_due d ds) (d ∷ ds)
unfolding insert_due
insert-Perm d [] = Perm.refl _
insert-Perm d (e ∷ es) = elim (Bool-cases (before d e)) [
  | inl first ↦ rw first (Perm.refl _)
  | inr later ↦ rw later (Perm.trans (Perm.cons e (insert-Perm d es)) (Perm.swap d e es))
]

sort-Perm : (ds : List Due) → Perm (sort_due ds) ds
unfolding sort_due
sort-Perm [] = Perm.refl _
sort-Perm (d ∷ ds) = Perm.trans (insert-Perm d (sort_due ds)) (Perm.cons d (sort-Perm ds))

-- A plan holds exactly the entries of the evaluations it was given, each as often as it was given,
-- and no item stands behind one that is less overdue.
pub plan-is_ordered :
    (vs : Items) (items : List Due)
    → plan (arr vs) ≡ ok items
    → (read : List Due) × (entries vs ≡ ok read) × Perm items read × (is_ordered items ≡ true)
unfolding plan
plan-is_ordered vs items h =
    let (_, _, h₁) =
      >>=-eq-ok (require (leb (items_length vs) 1024) (failure "invalid-plan")) _ h in
    let (read, found, h₂) = >>=-eq-ok (entries vs) _ h₁ in
    let same = ok-injective h₂ in
    (
      read,
      found,
      subst (λ ds. Perm ds read) same (sort-Perm read),
      subst (λ ds. is_ordered ds ≡ true) same (sort-is_ordered read),
    )
