-- ===== src/Json/Checks.antt =====
-- The checks of console/worker.py on JSON values: `_fields`, `_identifier`, `_hex32`, `_digest`
-- and `_integer`. A check raises a WorkerError with the code "invalid-" + context, or returns the
-- value that it has checked at its type. Every integer that the code accepts is at least 0.
use nexus_infra.Base.{ℕ, ◌^◌, ◌-◌, String, Bool, ◌&&◌, List, [], ◌∷◌, if◌then◌else◌, leb}
use nexus_infra.Base.Result.{Result, ok, err, failure, ◌>>=◌, require, or_raise, ◌>>◌}
use nexus_infra.Base.Strings.{is_identifier, is_hex32, is_digest, subset, distinct}
use nexus_infra.Json.Value.{
  pos, Value, boolean, int, str, arr, obj, Items, nil, cons, Fields, keys, get,
}

-- `set(value) != set(expected)`; the code is the whole text that the source puts together.
unfoldable pub fields : Value → List String → String → Result Fields
fields (obj fs) expected code =
    if subset (keys fs) expected && subset expected (keys fs) then ok fs else err (failure code)
fields _ expected code = err (failure code)

-- `value[key]`
unfoldable pub item : String → Fields → Result Value
item key fs = or_raise (get key fs) (failure "KeyError")

unfoldable pub text : Value → String → Result String
text (str s) code = ok s
text _ code = err (failure code)

unfoldable pub identifier : Value → String → Result String
identifier (str s) code = if is_identifier s then ok s else err (failure code)
identifier _ code = err (failure code)

unfoldable pub hex32 : Value → String → Result String
hex32 (str s) code = if is_hex32 s then ok s else err (failure code)
hex32 _ code = err (failure code)

unfoldable pub digest : Value → String → Result String
digest (str s) code = if is_digest s then ok s else err (failure code)
digest _ code = err (failure code)

unfoldable pub integer : Value → ℕ → ℕ → String → Result ℕ
integer (int (pos n)) low high code = if leb low n && leb n high then ok n else err (failure code)
integer _ low high code = err (failure code)

unfoldable pub flag : Value → String → Result Bool
flag (boolean b) code = ok b
flag _ code = err (failure code)

identifiers : Items → String → Result (List String)
unfolding identifier
identifiers nil code = ok []
identifiers (cons v vs) code = do s ← identifier v code; rest ← identifiers vs code; ok (s ∷ rest)

abbrev pub items_length : Items → ℕ
items_length nil = 0
items_length (cons v vs) = Prim.Native.Nat.suc (items_length vs)

-- `_id_list`, with the limit of 64 entries
unfoldable pub id_list : Value → String → Result (List String)
unfolding identifiers
id_list (arr vs) code = do
  require (leb (items_length vs) 64) (failure code)
  ids ← identifiers vs code
  require (distinct ids) (failure code)
  ok ids
id_list _ code = err (failure code)

abbrev pub max_i64 : ℕ
max_i64 = 2 ^ 63 - 1
