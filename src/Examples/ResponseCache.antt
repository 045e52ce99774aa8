-- ===== src/Examples/ResponseCache.antt =====
-- A response that is stored, served while it is fresh, and served as stale after it.
use steakout.Prelude.{
  ℕ, ◌≤◌, ◌≡◌, refl, Text, text, Option, none, some, List, [], ◌∷◌, length, arith,
}
use steakout.Json.{Value, string, object, field, end}
use steakout.ResponseCache.{
  ResponseCache, default_options, max_entries, set_cached_public_response, lookup_public_response,
  mark_envelope_stale_for_serve,
}
use steakout.ResponseCache.Bounds.{set-length}

abbrev empty : ResponseCache
empty = record { store = []; hits = 0; misses = 0; stale_serves = 0 }

abbrev body : Value
body = object (field (text "status") (string (text "ok")) end)

abbrev filled : ResponseCache
filled = set_cached_public_response (text "/k") body default_options 1000 empty

set-length_example : length filled.store ≤ max_entries
set-length_example = set-length (text "/k") body default_options 1000 empty (omega arith)

hit : (lookup_public_response (text "/k") 45999 filled).1.hits ≡ 1
unfolding lookup_public_response set_cached_public_response steakout.Prelude.text_eq
hit = refl

served_stale : (lookup_public_response (text "/k") 46000 filled).1.stale_serves ≡ 1
unfolding lookup_public_response set_cached_public_response steakout.Prelude.text_eq
served_stale = refl

marked :
    mark_envelope_stale_for_serve body ≡ object (field (text "status") (string (text "stale")) end)
unfolding mark_envelope_stale_for_serve steakout.Prelude.text_eq
marked = refl
