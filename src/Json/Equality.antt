-- ===== src/Json/Equality.antt =====
-- Equality of values as a test.
use nexus_infra.Base.{
  ℕ, Bool, true, false, ◌&&◌, ◌==◌, str_eq, Option, none, some, ◌≡◌, refl, arith, eq_iff, eq_refl,
  &&-eq-true,
}
use nexus_infra.Json.Value.{
  ℤ, pos, negsuc, Value, null, boolean, int, float, str, arr, obj, Items, nil, cons, Fields, end,
  field,
}

abbrev same_bool : Bool → Bool → Bool
same_bool true b = b
same_bool false true = false
same_bool false false = true

abbrev same_int : ℤ → ℤ → Bool
same_int (pos m) (pos n) = m == n
same_int (negsuc m) (negsuc n) = m == n
same_int _ _ = false

abbrev same_float : Option ℕ → Option ℕ → Bool
same_float none none = true
same_float (some m) (some n) = m == n
same_float _ _ = false

unfoldable mutual
  pub same : Value → Value → Bool
  same null null = true
  same (boolean a) (boolean b) = same_bool a b
  same (int m) (int n) = same_int m n
  same (float x) (float y) = same_float x y
  same (str s) (str t) = str_eq s t
  same (arr xs) (arr ys) = same_items xs ys
  same (obj fs) (obj gs) = same_fields fs gs
  same _ _ = false

  pub same_items : Items → Items → Bool
  same_items nil nil = true
  same_items (cons x xs) (cons y ys) = same x y && same_items xs ys
  same_items _ _ = false

  pub same_fields : Fields → Fields → Bool
  same_fields end end = true
  same_fields (field j v fs) (field k w gs) = str_eq j k && (same v w && same_fields fs gs)
  same_fields _ _ = false

same_bool_refl : (b : Bool) → same_bool b b ≡ true
same_bool_refl b = ground arith

same_int_refl : (n : ℤ) → same_int n n ≡ true
same_int_refl (pos n) = ground arith
same_int_refl (negsuc n) = ground arith

same_float_refl : (x : Option ℕ) → same_float x x ≡ true
same_float_refl none = refl
same_float_refl (some n) = ground arith

mutual
  unfolding same same_items same_fields

  pub same_refl : (v : Value) → same v v ≡ true
  same_refl null = refl
  same_refl (boolean b) = same_bool_refl b
  same_refl (int n) = same_int_refl n
  same_refl (float x) = same_float_refl x
  same_refl (str s) = eq_refl s
  same_refl (arr xs) = same_items_refl xs
  same_refl (obj fs) = same_fields_refl fs

  pub same_items_refl : (xs : Items) → same_items xs xs ≡ true
  same_items_refl nil = refl
  same_items_refl (cons x xs) = rw (same_refl x) (same_items_refl xs)

  pub same_fields_refl : (fs : Fields) → same_fields fs fs ≡ true
  same_fields_refl end = refl
  same_fields_refl (field k v fs) = rw (eq_refl, same_refl v) (same_fields_refl fs)

mutual
  unfolding same same_items same_fields

  pub same→eq : (v w : Value) → same v w ≡ true → v ≡ w
  same→eq null w h = ground arith
  same→eq (boolean b) w h = ground arith
  same→eq (int n) w h = ground arith
  same→eq (float x) w h = ground arith
  same→eq (str s) (str t) h = ground (arith, eq_iff s t)
  same→eq (str s) _ h = cc
  same→eq (arr xs) (arr ys) h = cc (same_items→eq xs ys h)
  same→eq (arr xs) _ h = cc
  same→eq (obj fs) (obj gs) h = cc (same_fields→eq fs gs h)
  same→eq (obj fs) _ h = cc

  pub same_items→eq : (xs ys : Items) → same_items xs ys ≡ true → xs ≡ ys
  same_items→eq nil ys h = ground arith
  same_items→eq (cons x xs) nil h = cc
  same_items→eq (cons x xs) (cons y ys) h =
      let (a, b) = &&-eq-true (same x y) (same_items xs ys) h in
      cc (same→eq x y a, same_items→eq xs ys b)

  pub same_fields→eq : (fs gs : Fields) → same_fields fs gs ≡ true → fs ≡ gs
  same_fields→eq end gs h = ground arith
  same_fields→eq (field j v fs) end h = cc
  same_fields→eq (field j v fs) (field k w gs) h =
      let (a, bc) = &&-eq-true (str_eq j k) (same v w && same_fields fs gs) h in
      let (b, c) = &&-eq-true (same v w) (same_fields fs gs) bc in
      cc ((eq_iff j k).0 a, same→eq v w b, same_fields→eq fs gs c)
