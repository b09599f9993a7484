-- ===== src/Policy/Retention.antt =====
-- The points that `evaluate` of console/policy.py reports as expired.
use nexus_infra.Base.{
  ℕ, ◌+◌, ◌-◌, ◌≤◌, ◌≡◌, refl, arith, ◌⊎◌, inl, String, Bool, true, false, not, ◌&&◌, List, [], ◌∷◌,
  map, Option, str_eq,
}
use nexus_infra.Base.Strings.{length, mem}
use nexus_infra.Base.Table.{any}
use nexus_infra.Policy.Record.{BackupPolicy}
use nexus_infra.Policy.Evaluate.{
  Point, is_protected, protected, but_last, last_point, over_age, expire, expired, classify,
  expired_eligible, is_current,
}

expire-keeps :
    (p : BackupPolicy) (now : ℕ) (ps : List Point) (retained : ℕ)
    → (expire p now ps retained ≡ [])
      ⊎ (length (expire p now ps retained) + p.keep_minimum ≤ retained)
unfolding expire
expire-keeps p now [] retained = inl refl
expire-keeps p now (q ∷ qs) retained =
    ground (arith, expire-keeps p now qs retained, expire-keeps p now qs (retained - 1))

-- Either no point expires, or the protected points that do not expire are at least `keepMinimum`,
-- however old they are.
pub keep_minimum_wins :
    (p : BackupPolicy) (now : ℕ) (ordered : List Point)
    → (expired p now ordered ≡ [])
      ⊎ (length (expired p now ordered) + p.keep_minimum ≤ length (protected ordered))
unfolding expired
keep_minimum_wins p now ordered =
    expire-keeps p now (but_last (protected ordered)) (length (protected ordered))

-- A point that may expire: protected, not pinned and over age.
abbrev pub may_expire : BackupPolicy → ℕ → String → Point → Bool
may_expire p now k q = str_eq q.id k && is_protected q && not q.pinned && over_age p now q

abbrev overdue : BackupPolicy → ℕ → String → Point → Bool
overdue p now k q = str_eq q.id k && not q.pinned && over_age p now q

expire-overdue :
    (p : BackupPolicy) (now : ℕ) (ps : List Point) (retained : ℕ) (k : String)
    → mem k (map (λ t. t.id) (expire p now ps retained)) ≡ true
    → any (overdue p now k) ps ≡ true
unfolding expire
expire-overdue p now [] retained k h = cc
expire-overdue p now (q ∷ qs) retained k h =
    ground (arith, expire-overdue p now qs retained k, expire-overdue p now qs (retained - 1) k)

any-but_last : (f : Point → Bool) (ps : List Point) → any f (but_last ps) ≡ true → any f ps ≡ true
unfolding but_last
any-but_last f [] h = cc
any-but_last f (p ∷ []) h = cc
any-but_last f (p ∷ q ∷ qs) h = ground (arith, any-but_last f (q ∷ qs))

any-protected :
    (p : BackupPolicy) (now : ℕ) (k : String) (ps : List Point)
    → any (overdue p now k) (protected ps) ≡ true
    → any (may_expire p now k) ps ≡ true
unfolding protected
any-protected p now k [] h = cc
any-protected p now k (q ∷ qs) h = ground (arith, any-protected p now k qs)

classify-expired :
    (p : BackupPolicy) (now : ℕ) (current : Option Point) (gone : List Point) (q : Point)
    → classify p now current gone q ≡ expired_eligible
    → (is_protected q ≡ true)
      × (is_current current q ≡ false)
      × (mem q.id (map (λ t. t.id) gone) ≡ true)
unfolding classify
classify-expired p now current gone q h = ground arith

-- A point that is classified as expired is protected and is not the newest protected point, and its
-- id is that of a protected point that is not pinned and is older than the policy's greatest age.
pub expired-justified :
    (p : BackupPolicy) (now : ℕ) (ordered : List Point) (q : Point)
    → classify p now (last_point (protected ordered)) (expired p now ordered) q ≡ expired_eligible
    → (is_protected q ≡ true)
      × (is_current (last_point (protected ordered)) q ≡ false)
      × (any (may_expire p now q.id) ordered ≡ true)
unfolding expired
expired-justified p now ordered q h =
    let (safe, old, gone) = classify-expired p now _ _ q h in
    let ps = protected ordered in
    (
      safe,
      old,
      any-protected p now q.id ordered (
          any-but_last (overdue p now q.id) ps
            (expire-overdue p now (but_last ps) (length ps) q.id gone)),
    )
