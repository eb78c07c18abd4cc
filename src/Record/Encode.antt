-- ===== src/Record/Encode.antt =====
-- record_encode of src/memory/record.c. A buffer is the list of the bytes put so far, and each
-- `put_` gives the bytes that it appends. Growth of the buffer (buf_reserve) is assumed to
-- succeed.
use aegisdb.Prelude.{
  ℕ, zero, suc, ◌*◌, ◌%◌, ◌^◌, Bool, false, Option, none, some, List, [], ◌∷◌, ◌++◌, ◌&&◌, ◌||◌,
  not, ltb, ◌==◌, if◌then◌else◌, length, get_or,
}
use aegisdb.Bytes.{put_u16le, put_u32le, put_u64le}
use aegisdb.Record.{
  CString, Relationship, FactValue, DerivRoute, MemoryRecord, fact_none, fact_obj_id, u16_max,
  u32_max, null_len, deriv_max_premises, deriv_max_routes, is_rule, is_object_kind,
}

-- One `put_` after another.
infixr 60 ◌▸◌
abbrev pub ◌▸◌ : List ℕ → List ℕ → List ℕ
xs ▸ ys = xs ++ ys

abbrev pub put_u8 : ℕ → List ℕ
put_u8 v = (v % 256) ∷ []

unfoldable pub put_lenstr : Option CString → List ℕ
put_lenstr none = put_u32le null_len
put_lenstr (some s) = put_u32le (length s % 2 ^ 32) ▸ s

unfoldable pub put_tags : List CString → List ℕ
put_tags [] = []
put_tags (t ∷ ts) = put_lenstr (some t) ▸ put_tags ts

-- The loop over the floats, with the rounds left and the index.
unfoldable pub put_floats : ℕ → ℕ → List ℕ → List ℕ
put_floats zero i embedding = []
put_floats (suc rounds) i embedding =
    put_u32le (get_or embedding i 0) ▸ put_floats rounds (suc i) embedding

unfoldable pub put_relationships : List Relationship → List ℕ
put_relationships [] = []
put_relationships (r ∷ rs) =
    put_u64le r.from_id ▸ put_u64le r.to_id ▸ put_lenstr r.kind ▸ put_relationships rs

unfoldable pub put_fact : FactValue → List ℕ
put_fact f =
    put_u8 f.kind
    ▸ put_u64le f.subject
    ▸ put_lenstr f.predicate
    ▸ (if f.kind == fact_obj_id then put_u64le f.object_id else put_lenstr f.object_str)

unfoldable pub put_ids : List ℕ → List ℕ
put_ids [] = []
put_ids (p ∷ ps) = put_u64le p ▸ put_ids ps

unfoldable pub put_routes : List DerivRoute → List ℕ
put_routes [] = []
put_routes (rt ∷ rts) =
    put_u8 rt.rule
    ▸ put_u16le rt.depth
    ▸ put_u8 (length rt.premises)
    ▸ put_ids rt.premises
    ▸ put_routes rts

abbrev pub has_fact : MemoryRecord → Bool
has_fact r = not (r.fact.kind == fact_none)

abbrev pub has_derivation : MemoryRecord → Bool
has_derivation r = ltb 0 (length r.routes)

-- The lowest codec version that can hold the record.
unfoldable pub version_of : MemoryRecord → ℕ
version_of r = if has_derivation r then 5 else if has_fact r then 3 else 2

unfoldable pub put_record : MemoryRecord → List ℕ
put_record r =
    put_u8 (version_of r)
    ▸ put_u64le r.id
    ▸ put_u8 r.type
    ▸ put_u64le r.created
    ▸ put_u64le r.updated
    ▸ put_u32le r.importance
    ▸ put_u32le r.confidence
    ▸ put_u8 (if r.deleted == 0 then 0 else 1)
    ▸ put_u64le r.expires_at
    ▸ put_lenstr r.agent_id
    ▸ put_u16le (length r.tags)
    ▸ put_tags r.tags
    ▸ put_u32le r.vec_count
    ▸ put_u32le r.embedding_dim
    ▸ put_floats (r.vec_count * r.embedding_dim) 0 r.embedding
    ▸ put_u16le (length r.relationships)
    ▸ put_relationships r.relationships
    ▸ (if has_fact r then put_fact r.fact else [])
    ▸ (if has_derivation r then put_u16le (length r.routes) ▸ put_routes r.routes else [])
    ▸ put_u32le (length r.payload % 2 ^ 32)
    ▸ r.payload

-- Some route has a rule without an encoding.
unfoldable pub has_unknown_rule : List DerivRoute → Bool
has_unknown_rule [] = false
has_unknown_rule (rt ∷ rts) = not (is_rule rt.rule) || has_unknown_rule rts

-- Some route has no premises, or more than the cap.
unfoldable pub has_bad_count : List DerivRoute → Bool
has_bad_count [] = false
has_bad_count (rt ∷ rts) =
    length rt.premises == 0 || ltb deriv_max_premises (length rt.premises) || has_bad_count rts

-- The tests on which record_encode returns -1. A test that stands between two writes frees the
-- buffer, so that nothing of it is seen.
unfoldable pub encode_refuses : MemoryRecord → Bool
encode_refuses r =
    (has_fact r && not (is_object_kind r.fact.kind))
    || has_unknown_rule r.routes
    || (has_derivation r && not (has_fact r))
    || ltb u16_max (length r.tags)
    || (ltb u32_max r.vec_count || ltb u32_max r.embedding_dim)
    || ltb u16_max (length r.relationships)
    || (has_derivation r && (ltb deriv_max_routes (length r.routes) || has_bad_count r.routes))

unfoldable pub record_encode : MemoryRecord → Option (List ℕ)
record_encode r = if encode_refuses r then none else some (put_record r)
