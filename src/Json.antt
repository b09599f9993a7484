-- ===== src/Json.antt =====
-- JSON values as Python holds them (json.loads), with the equality of their canonical texts
-- (artifacts.canonical_bytes in console/artifacts.py) and the checks of console/worker.py.
--
-- A canonical text is represented by the value that it encodes, its keys in order: json.dumps with
-- sort_keys and fixed separators is injective on such values.
pub mod Value
pub mod Equality
pub mod Checks
