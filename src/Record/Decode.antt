-- ===== src/Record/Decode.antt =====
-- record_decode of src/memory/record.c. `none` is its `goto fail`. Allocation is assumed to
-- succeed.
use aegisdb.Prelude.{
  ℕ, zero, suc, ◌*◌, ◌/◌, Bool, false, Option, none, some, List, [], ◌∷◌, ◌&&◌, ◌||◌, not, ltb, leb,
  ◌==◌, if◌then◌else◌, length, take, drop,
}
use aegisdb.Record.{
  CString, Relationship, FactValue, DerivRoute, MemoryRecord, mem_semantic, no_fact, fact_obj_id,
  fact_obj_string, float_zero, float_one, is_finite, is_below_zero, is_above_one, is_rule,
  is_object_kind, deriv_max_premises, deriv_max_routes,
}
use aegisdb.Record.Decoder.{Decoder, ◌>>=◌, ◌>>◌, pure, read, present, require, check}
use aegisdb.Record.Cursor.{Cur, get_u8, get_u16, get_u32, get_u64, get_lenstr}
use aegisdb.Record.Fact.{set_fact}
use aegisdb.Record.Route.{AddResult, added, redundant, refused, add_route}

abbrev pub clamp_weight : ℕ → ℕ → ℕ
clamp_weight fallback x =
    if not (is_finite x) || is_below_zero x || is_above_one x then fallback else x

unfoldable pub decode_tags : ℕ → Decoder (List CString)
decode_tags zero = pure []
decode_tags (suc n) = do
  s ← read get_lenstr
  check
  t ← present s
  ts ← decode_tags n
  pure (t ∷ ts)

unfoldable pub decode_floats : ℕ → Decoder (List ℕ)
decode_floats zero = pure []
decode_floats (suc n) = do f ← read get_u32; check; fs ← decode_floats n; pure (f ∷ fs)

pub record Embedding : Type 0 where
  pub floats : List ℕ
  pub dim : ℕ
  pub vecs : ℕ

abbrev pub no_embedding : Embedding
no_embedding = record { floats = []; dim = 0; vecs = 0 }

-- The count of floats is checked against the bytes left before it is multiplied out.
unfoldable pub decode_vectors : ℕ → ℕ → Decoder Embedding
decode_vectors vecs dim c =
    if dim == 0 || vecs == 0
    then pure no_embedding c
    else if ltb (length c.rest / 4 / dim) vecs
    then none
    else (do fs ← decode_floats (vecs * dim); pure (record { floats = fs; dim = dim; vecs = vecs }))
        c

unfoldable pub decode_embedding : ℕ → Decoder Embedding
decode_embedding ver = do
  vecs ← if leb 2 ver then read get_u32 else pure 1
  dim ← read get_u32
  check
  decode_vectors (if ver == 1 && dim == 0 then 0 else vecs) dim

unfoldable pub decode_relationships : ℕ → Decoder (List Relationship)
decode_relationships zero = pure []
decode_relationships (suc n) = do
  from ← read get_u64
  to ← read get_u64
  kind ← read get_lenstr
  check
  rs ← decode_relationships n
  pure (record { from_id = from; to_id = to; kind = kind } ∷ rs)

unfoldable pub decode_object : ℕ → ℕ → CString → Decoder FactValue
decode_object kind subject predicate =
    if kind == fact_obj_id
    then (do
      object ← read get_u64
      check
      present (set_fact fact_obj_id subject (some predicate) object none))
    else (do
      s ← read get_lenstr
      check
      object ← present s
      present (set_fact fact_obj_string subject (some predicate) 0 (some object)))

unfoldable pub decode_fact : Decoder FactValue
decode_fact = do
  kind ← read get_u8
  check
  require (is_object_kind kind)
  subject ← read get_u64
  s ← read get_lenstr
  check
  predicate ← present s
  decode_object kind subject predicate

unfoldable pub decode_ids : ℕ → Decoder (List ℕ)
decode_ids zero = pure []
decode_ids (suc n) = do p ← read get_u64; ps ← decode_ids n; pure (p ∷ ps)

-- A route that add_route does not take as new is refused.
abbrev pub require_added : AddResult × List DerivRoute → Decoder (List DerivRoute)
require_added (added, rs) c = some (rs, c)
require_added (redundant, rs) c = none
require_added (refused, rs) c = none

-- The loop over the routes, with those decoded so far.
unfoldable pub decode_routes_from : ℕ → List DerivRoute → Decoder (List DerivRoute)
decode_routes_from zero rs = pure rs
decode_routes_from (suc n) rs = do
  rule ← read get_u8
  depth ← read get_u16
  count ← read get_u8
  check
  require (is_rule rule)
  require (not (count == 0 || ltb deriv_max_premises count))
  premises ← decode_ids count
  check
  rs' ← require_added (add_route rs (record { rule = rule; depth = depth; premises = premises }))
  decode_routes_from n rs'

unfoldable pub decode_routes : Decoder (List DerivRoute)
decode_routes = do
  n ← read get_u16
  check
  require (not (n == 0 || ltb deriv_max_routes n))
  decode_routes_from n []

abbrev pub take_payload : ℕ → Decoder (List ℕ)
take_payload n c =
    if ltb (length c.rest) n then none else some (take n c.rest, record c { rest = drop n c.rest })

unfoldable pub decode_payload : Decoder (List ℕ)
decode_payload = do n ← read get_u32; check; take_payload n

abbrev pub is_version : ℕ → Bool
is_version ver = ver == 1 || ver == 2 || ver == 3 || ver == 5

unfoldable pub decode_record : Decoder MemoryRecord
decode_record = do
  ver ← read get_u8
  require (is_version ver)
  id ← read get_u64
  type ← read get_u8
  require (leb type mem_semantic)
  created ← read get_u64
  updated ← read get_u64
  importance ← read get_u32
  confidence ← read get_u32
  deleted ← read get_u8
  expires_at ← read get_u64
  agent_id ← read get_lenstr
  check
  tag_count ← read get_u16
  check
  tags ← decode_tags tag_count
  vectors ← decode_embedding ver
  rel_count ← read get_u16
  check
  relationships ← decode_relationships rel_count
  fact ← if leb 3 ver then decode_fact else pure no_fact
  routes ← if leb 5 ver then decode_routes else pure []
  payload ← decode_payload
  check
  pure (record {
    id = id;
    type = type;
    created = created;
    updated = updated;
    importance = clamp_weight float_zero importance;
    confidence = clamp_weight float_one confidence;
    agent_id = agent_id;
    tags = tags;
    embedding = vectors.floats;
    embedding_dim = vectors.dim;
    vec_count = vectors.vecs;
    relationships = relationships;
    fact = fact;
    routes = routes;
    payload = payload;
    expires_at = expires_at;
    deleted = deleted;
  })

-- The record, without the cursor.
abbrev pub decoded : Option (MemoryRecord × Cur) → Option MemoryRecord
decoded none = none
decoded (some (r, c)) = some r

-- record_decode(buf, len, out); bytes behind the record are not looked at.
unfoldable pub record_decode : List ℕ → Option MemoryRecord
record_decode buf = decoded (decode_record (record { rest = buf; err = false }))
