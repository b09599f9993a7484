-- ===== src/Base/Table.antt =====
-- A database table as a list of rows under a primary key: the first row with a key, a write that
-- replaces it (INSERT ... ON CONFLICT DO UPDATE), and the laws of the two.
use Prim.Native.String.{String}
use mathlib.Core.Path.{◌≡◌, refl}
use mathlib.Core.Bool.{Bool, true, false, ◌&&◌, ◌||◌}
use mathlib.Core.Option.{Option, none, some}
use mathlib.Core.List.{List, [], ◌∷◌, ◌++◌}
use native.Mathlib.Omega.{arith}
use text.Mathlib.Text.{◌==◌ as str_eq}
use text.Mathlib.TextEquality.{eq_iff}
use nexus_infra.Base.Tests.{if◌then◌else◌, is_some}

module _ {ℓ} {A : Type ℓ} where
  abbrev pub any : (A → Bool) → List A → Bool
  any p [] = false
  any p (x ∷ xs) = p x || any p xs

  abbrev pub all : (A → Bool) → List A → Bool
  all p [] = true
  all p (x ∷ xs) = p x && all p xs

  abbrev pub find : (A → Bool) → List A → Option A
  find p [] = none
  find p (x ∷ xs) = if p x then some x else find p xs

  abbrev pub row : (A → String) → String → List A → Option A
  row key k [] = none
  row key k (x ∷ xs) = if str_eq (key x) k then some x else row key k xs

  -- Replaces the row with the key of `x`, or adds `x` as the last row.
  unfoldable pub upsert : (A → String) → A → List A → List A
  upsert key x [] = x ∷ []
  upsert key x (y ∷ ys) = if str_eq (key y) (key x) then x ∷ ys else y ∷ upsert key x ys

  pub row-upsert :
      (key : A → String) (k : String) (x : A) (xs : List A)
      → row key k (upsert key x xs) ≡ (if str_eq (key x) k then some x else row key k xs)
  unfolding upsert
  row-upsert key k x [] = refl
  row-upsert key k x (y ∷ ys) =
      ground
        (arith, eq_iff (key x) k, eq_iff (key y) (key x), eq_iff (key y) k, row-upsert key k x ys)

  pub row-append :
      (key : A → String) (k : String) (x : A) (xs : List A)
      → row key k (xs ++ x ∷ []) ≡ (
          if is_some (row key k xs)
          then row key k xs
          else if str_eq (key x) k
          then some x
          else none)
  row-append key k x [] = refl
  row-append key k x (y ∷ ys) = ground (arith, row-append key k x ys)

  pub any-append : (p : A → Bool) (xs ys : List A) → any p (xs ++ ys) ≡ (any p xs || any p ys)
  any-append p [] ys = refl
  any-append p (x ∷ xs) ys = ground (arith, any-append p xs ys)

  pub all-append : (p : A → Bool) (xs ys : List A) → all p (xs ++ ys) ≡ (all p xs && all p ys)
  all-append p [] ys = refl
  all-append p (x ∷ xs) ys = ground (arith, all-append p xs ys)

  pub all_mono :
      (p q : A → Bool) (xs : List A)
      → ((x : A) → p x ≡ true → q x ≡ true)
      → all p xs ≡ true
      → all q xs ≡ true
  all_mono p q [] h a = refl
  all_mono p q (x ∷ xs) h a = ground (arith, h x, all_mono p q xs h)

  pub any_mono :
      (p q : A → Bool) (xs : List A)
      → ((x : A) → p x ≡ true → q x ≡ true)
      → any p xs ≡ true
      → any q xs ≡ true
  any_mono p q [] h a = a
  any_mono p q (x ∷ xs) h a = ground (arith, h x, any_mono p q xs h)

  pub all-upsert :
      (p : A → Bool) (key : A → String) (x : A) (xs : List A)
      → p x ≡ true
      → all p xs ≡ true
      → all p (upsert key x xs) ≡ true
  unfolding upsert
  all-upsert p key x [] h a = ground arith
  all-upsert p key x (y ∷ ys) h a = ground (arith, all-upsert p key x ys h)

  pub all-row :
      (p : A → Bool) (key : A → String) (k : String) (xs : List A) {x : A}
      → all p xs ≡ true
      → row key k xs ≡ some x
      → p x ≡ true
  all-row p key k [] a e = cc
  all-row p key k (y ∷ ys) {x} a e = ground (arith, all-row p key k ys {x = x})

  pub row-key :
      (key : A → String) (k : String) (xs : List A) {x : A} → row key k xs ≡ some x → key x ≡ k
  row-key key k [] e = cc
  row-key key k (y ∷ ys) {x} e = ground (arith, eq_iff (key y) k, row-key key k ys {x = x})

  pub all-any :
      (p q : A → Bool) (xs : List A)
      → ((x : A) → p x ≡ true → q x ≡ true → ⊥)
      → all p xs ≡ true
      → any q xs ≡ false
  all-any p q [] h a = refl
  all-any p q (x ∷ xs) h a = ground (arith, h x, all-any p q xs h)

  pub row-append_left :
      (key : A → String) (k : String) (xs ys : List A) {x : A}
      → row key k xs ≡ some x
      → row key k (xs ++ ys) ≡ some x
  row-append_left key k [] ys e = cc
  row-append_left key k (z ∷ zs) ys {x} e = ground (arith, row-append_left key k zs ys {x = x})

  pub any-append_left : (p : A → Bool) (xs ys : List A) → any p xs ≡ true → any p (xs ++ ys) ≡ true
  any-append_left p [] ys h = cc
  any-append_left p (x ∷ xs) ys h = ground (arith, any-append_left p xs ys)

  pub find-append_left :
      (p : A → Bool) (xs ys : List A) {x : A} → find p xs ≡ some x → find p (xs ++ ys) ≡ some x
  find-append_left p [] ys e = cc
  find-append_left p (z ∷ zs) ys {x} e = ground (arith, find-append_left p zs ys {x = x})

  pub any-row :
      (p : A → Bool) (key : A → String) (k : String) (xs : List A) {x : A}
      → row key k xs ≡ some x
      → p x ≡ true
      → any p xs ≡ true
  any-row p key k [] e h = cc
  any-row p key k (y ∷ ys) {x} e h = ground (arith, any-row p key k ys {x = x})

pub is_some-of {ℓ} : {B : Type ℓ} (o : Option B) → is_some o ≡ true → (b : B) × (o ≡ some b)
is_some-of none h = cc
is_some-of (some b) h = (b, refl)
