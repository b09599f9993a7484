-- ===== src/Catalog/MountPoint.antt =====
-- `_mount_point` of console/catalog.py and the test that state mounts do not overlap.
use nexus_infra.Base.{
  ℕ, suc, Bool, true, false, not, ◌&&◌, ◌||◌, List, [], ◌∷◌, map, leb, ◌==◌, if◌then◌else◌,
}
use nexus_infra.Base.Result.{Result, ok, err, failure, ◌>>◌, require}
use nexus_infra.Base.Strings.{codes, length}
use nexus_infra.Base.Table.{all, any}
use nexus_infra.Json.Value.{Value, str}

abbrev pub same_codes : List ℕ → List ℕ → Bool
same_codes [] [] = true
same_codes (x ∷ xs) (y ∷ ys) = x == y && same_codes xs ys
same_codes _ _ = false

-- `text.split('/')`, of the code points
split_on : ℕ → List ℕ → List ℕ × List (List ℕ)
split_on c [] = ([], [])
split_on c (x ∷ xs) =
    let rest = split_on c xs in if x == c then ([], rest.0 ∷ rest.1) else (x ∷ rest.0, rest.1)

abbrev split : ℕ → List ℕ → List (List ℕ)
split c xs = (split_on c xs).0 ∷ (split_on c xs).1

abbrev segment_code : ℕ → Bool
segment_code c =
    leb b'A' c && leb c b'Z'
    || leb b'a' c && leb c b'z'
    || leb b'0' c && leb c b'9'
    || c == b'_'
    || c == b'.'
    || c == b'-'

abbrev segment_ok : List ℕ → Bool
segment_ok cs =
    not (same_codes cs (codes ".") || same_codes cs (codes ".."))
    && leb (length cs) 255
    && not (same_codes cs [])
    && all segment_code cs

abbrev ends_with : ℕ → List ℕ → Bool
ends_with c [] = false
ends_with c (x ∷ []) = x == c
ends_with c (x ∷ y ∷ ys) = ends_with c (y ∷ ys)

abbrev pub reserved_roots : List (List ℕ)
reserved_roots = map codes ("etc" ∷ "dev" ∷ "proc" ∷ "sys" ∷ "run" ∷ "nix" ∷ [])

abbrev pub reserved : List (List ℕ) → Bool
reserved [] = false
reserved (s ∷ ss) = any (same_codes s) reserved_roots

absolute : List ℕ → Result (List (List ℕ))
unfolding split_on
absolute [] = err (failure "Invalid mountPoint")
absolute (c ∷ cs) = do
  require (c == b'/') (failure "Invalid mountPoint")
  require (not (same_codes cs [])) (failure "Invalid mountPoint")
  require (not (ends_with b'/' cs)) (failure "Invalid mountPoint")
  require (leb (suc (length cs)) 4095) (failure "Invalid mountPoint")
  let segments = split b'/' cs
  require (all segment_ok segments) (failure "Invalid mountPoint")
  require (not (reserved segments)) (failure "Invalid mountPoint")
  ok segments

unfoldable pub mount_point : Value → Result (List (List ℕ))
unfolding absolute
mount_point (str s) = absolute (codes s)
mount_point _ = err (failure "Invalid mountPoint")

-- `longer[:len(shorter)] == shorter`
abbrev pub starts : List (List ℕ) → List (List ℕ) → Bool
starts [] ys = true
starts (x ∷ xs) [] = false
starts (x ∷ xs) (y ∷ ys) = same_codes x y && starts xs ys

unfoldable pub overlap : List (List ℕ) → List (List ℕ) → Bool
overlap point other =
    if leb (length point) (length other) then starts point other else starts other point

-- The double loop over `points`.
unfoldable pub overlapping : List (List (List ℕ)) → Bool
unfolding overlap
overlapping [] = false
overlapping (point ∷ points) = any (overlap point) points || overlapping points
