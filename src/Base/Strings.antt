-- ===== src/Base/Strings.antt =====
-- The texts that the code checks: code points, membership in a set of texts, and the patterns of
-- console/catalog.py and console/worker.py (an identifier, 32 hexadecimal digits, a digest).
use Prim.Native.Nat.{ℕ, zero, suc}
use Prim.Native.Char.{code}
use Prim.Native.String.{String}
use mathlib.Core.Bool.{Bool, true, false, not, ◌&&◌, ◌||◌}
use mathlib.Core.List.{List, [], ◌∷◌}
use text.Mathlib.Text.{◌==◌ as str_eq}
use nexus_infra.Base.Tests.{leb, ltb, ◌==◌}
use nexus_infra.Base.Table.{all}

abbrev pub codes : String → List ℕ
codes String.[] = []
codes (String.◌∷◌ c s) = code c ∷ codes s

module _ {ℓ} {A : Type ℓ} where
  abbrev pub length : List A → ℕ
  length [] = 0
  length (x ∷ xs) = suc (length xs)

  abbrev pub take : ℕ → List A → List A
  take zero xs = []
  take (suc n) [] = []
  take (suc n) (x ∷ xs) = x ∷ take n xs

  abbrev pub drop : ℕ → List A → List A
  drop zero xs = xs
  drop (suc n) [] = []
  drop (suc n) (x ∷ xs) = drop n xs

abbrev pub mem : String → List String → Bool
mem k [] = false
mem k (x ∷ xs) = str_eq x k || mem k xs

-- `set(a) <= set(b)`
abbrev pub subset : List String → List String → Bool
subset xs ys = all (λ x. mem x ys) xs

-- `len(set(a)) == len(a)`
abbrev pub distinct : List String → Bool
distinct [] = true
distinct (x ∷ xs) = not (mem x xs) && distinct xs

abbrev between : ℕ → ℕ → ℕ → Bool
between lo hi c = leb lo c && leb c hi

abbrev is_lower : ℕ → Bool
is_lower = between b'a' b'z'

abbrev is_digit : ℕ → Bool
is_digit = between b'0' b'9'

abbrev is_hex : ℕ → Bool
is_hex c = is_digit c || between b'a' b'f' c

abbrev identifier_tail : ℕ → Bool
identifier_tail c = is_lower c || is_digit c || c == b'-'

identifier_codes : List ℕ → Bool
identifier_codes [] = false
identifier_codes (c ∷ cs) = is_lower c && leb (length cs) 62 && all identifier_tail cs

-- `[a-z][a-z0-9-]{0,62}`
unfoldable pub is_identifier : String → Bool
unfolding identifier_codes
is_identifier s = identifier_codes (codes s)

-- `[0-9a-f]{32}`
unfoldable pub is_hex32 : String → Bool
is_hex32 s = let cs = codes s in length cs == 32 && all is_hex cs

digest_codes : List ℕ → List ℕ → Bool
digest_codes [] cs = length cs == 64 && all is_hex cs
digest_codes (p ∷ ps) [] = false
digest_codes (p ∷ ps) (c ∷ cs) = p == c && digest_codes ps cs

-- `sha256:[0-9a-f]{64}`
unfoldable pub is_digest : String → Bool
unfolding digest_codes
is_digest s = digest_codes (codes "sha256:") (codes s)

-- The order of texts by their code points, as `sorted` compares them.
lt_codes : List ℕ → List ℕ → Bool
lt_codes xs [] = false
lt_codes [] (y ∷ ys) = true
lt_codes (x ∷ xs) (y ∷ ys) = ltb x y || (x == y && lt_codes xs ys)

unfoldable pub str_lt : String → String → Bool
unfolding lt_codes
str_lt s t = lt_codes (codes s) (codes t)
