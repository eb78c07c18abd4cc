-- ===== src/Record/RoundTrip.antt =====
-- record_encode and record_decode together.
use aegisdb.Prelude.{
  ℕ, ◌≤◌, ◌<◌, ◌≡◌, refl, ap, ◌∙◌, true, false, Option, some, List, [], ◌∷◌, ◌++◌, not, ltb, leb,
  ◌==◌, ◌||◌, if◌then◌else◌, length, All, arith, append_assoc, ◌⊎◌, inl, inr, le→leb,
}
use aegisdb.Record.{FactValue, DerivRoute, MemoryRecord, no_fact, float_zero, float_one}
use aegisdb.Record.Route.Insert.{IsRoute}
use aegisdb.Record.Route.Sorted.{IsProvenance}
use aegisdb.Record.Cursor.{Cur}
use aegisdb.Record.Cursor.Reads.{
  cur, get_u8-put_u8, get_u16-put_u16le, get_u32-put_u32le, get_u64-put_u64le,
  get_lenstr-put_lenstr,
}
use aegisdb.Record.Encode.{
  has_fact, has_derivation, version_of, put_fact, put_routes, put_record, has_unknown_rule,
  has_bad_count, encode_refuses, record_encode,
}
use aegisdb.Bytes.{put_u16le}
use aegisdb.Record.Decoder.{pure, bind_step, read_step, check_step, require_step}
use aegisdb.Record.Decode.{
  clamp_weight, is_version, decode_fact, decode_routes, decode_record, decoded, record_decode,
}
use aegisdb.Record.Stages.{
  decode_tags-put_tags, decode_relationships-put_relationships, decode_fact-put_fact,
  decode_payload-put,
}
use aegisdb.Record.Stages.Vectors.{decode_embedding-put}
use aegisdb.Record.Stages.Provenance.{decode_routes-put_routes}
use aegisdb.Record.Valid.{
  IsWeight, IsFact, about_id, about_string, IsAssertion, IsRouteRange, IsValid,
}

clamp_weight-eq_self : (fallback x : ℕ) → IsWeight x → clamp_weight fallback x ≡ x
clamp_weight-eq_self fallback x (range, finite, low, high) = rw (finite, low, high)

has_unknown_rule-eq_false : (rs : List DerivRoute) → All IsRoute rs → has_unknown_rule rs ≡ false
unfolding has_unknown_rule
has_unknown_rule-eq_false [] h = refl
has_unknown_rule-eq_false (rt ∷ rs) ((rule, low, high), h) =
    rw (rule, has_unknown_rule-eq_false rs h)

has_bad_count-eq_false : (rs : List DerivRoute) → All IsRoute rs → has_bad_count rs ≡ false
unfolding has_bad_count
has_bad_count-eq_false [] h = refl
has_bad_count-eq_false (rt ∷ rs) ((rule, low, high), h) =
    ground (arith, has_bad_count-eq_false rs h)

-- What the kind of a fact tells.
IsFact-kind :
    (f : FactValue) → IsFact f → ((f.kind == 0) ≡ false) × ((f.kind == 1 || f.kind == 2) ≡ true)
IsFact-kind f (about_id subject c cs object hs hp ho) = (refl, refl)
IsFact-kind f (about_string subject c cs object hs hp ho) = (refl, refl)

-- A record without a fact has no derivation, and a fact has a known kind.
IsAssertion-kinds :
    (f : FactValue) (rs : List DerivRoute)
    → IsAssertion f rs
    → ((f.kind ≡ 0) × (length rs ≡ 0))
      ⊎ (((f.kind == 0) ≡ false) × ((f.kind == 1 || f.kind == 2) ≡ true))
IsAssertion-kinds f rs (inl (e, d)) =
    inl (ap (λ (g : FactValue). g.kind) e, ap (λ (l : List DerivRoute). length l) d)
IsAssertion-kinds f rs (inr h) = inr (IsFact-kind f h)

-- The version byte tells whether the frame has a fact, and whether it has a derivation.
record IsVersion (r : MemoryRecord) (ver : ℕ) : Type 0 where
  known : is_version ver ≡ true
  two : 2 ≤ ver
  small : ver < 256
  fact : leb 3 ver ≡ has_fact r
  routes : leb 5 ver ≡ has_derivation r

version_of-IsVersion : (r : MemoryRecord) → IsValid r → IsVersion r (version_of r)
unfolding version_of
version_of-IsVersion r v = elim (IsAssertion-kinds r.fact r.routes v.assertion) [
  | inl (kind, count) ↦ ground arith
  | inr (kind, _) ↦ ground arith
]

encode_refuses-eq_false : (r : MemoryRecord) → IsValid r → encode_refuses r ≡ false
unfolding encode_refuses
encode_refuses-eq_false r v =
    let rules = has_unknown_rule-eq_false r.routes v.provenance.known in
    let counts = has_bad_count-eq_false r.routes v.provenance.known in
    let few = v.provenance.few in
    elim (IsAssertion-kinds r.fact r.routes v.assertion) [
      | inl (kind, count) ↦ ground (arith, rules, counts)
      | inr (kind, known) ↦ ground (arith, rules, counts)
    ]

fact_stage :
    (f : FactValue) (rs : List DerivRoute) (ys : List ℕ)
    → IsAssertion f rs
    → (if not (f.kind == 0) then decode_fact else pure no_fact)
        (cur ((if not (f.kind == 0) then put_fact f else []) ++ ys))
      ≡ some (f, cur ys)
fact_stage f rs ys (inl (e, d)) = rw e
fact_stage f rs ys (inr h) = rw (IsFact-kind f h).0 (decode_fact-put_fact f ys h)

routes_stage :
    (rs : List DerivRoute) (ys : List ℕ)
    → IsProvenance rs
    → All IsRouteRange rs
    → (if ltb 0 (length rs) then decode_routes else pure [])
        (cur ((if ltb 0 (length rs) then put_u16le (length rs) ++ put_routes rs else []) ++ ys))
      ≡ some (rs, cur ys)
routes_stage [] ys h ranges = refl
routes_stage (rt ∷ rts) ys h ranges =
    let there : ltb 0 (length (rt ∷ rts)) ≡ true = ground arith in
    rw (there, append_assoc (put_u16le (length (rt ∷ rts))) (put_routes (rt ∷ rts)) ys)
      (decode_routes-put_routes (rt ∷ rts) ys (omega arith) h ranges)

module _ (r : MemoryRecord) (v : IsValid r) (ys : List ℕ) where
  versioned_fact :
      (if leb 3 (version_of r) then decode_fact else pure no_fact)
        (cur ((if has_fact r then put_fact r.fact else []) ++ ys))
      ≡ some (r.fact, cur ys)
  versioned_fact = rw (version_of-IsVersion r v).fact (fact_stage r.fact r.routes ys v.assertion)

  versioned_routes :
      (if leb 5 (version_of r) then decode_routes else pure []) (
        cur (
          (if has_derivation r then put_u16le (length r.routes) ++ put_routes r.routes else [])
          ++ ys))
      ≡ some (r.routes, cur ys)
  versioned_routes =
      rw (version_of-IsVersion r v).routes (routes_stage r.routes ys v.provenance v.route_ranges)

  -- Whatever fallback they name, the clamps keep a valid record as it is.
  clamped :
      ◌≡◌ {A = Option (MemoryRecord × Cur)}
        (some (
          record r {
            importance = clamp_weight float_zero r.importance;
            confidence = clamp_weight float_one r.confidence;
          },
          cur ys,
        ))
        (some (r, cur ys))
  clamped = rw (
    clamp_weight-eq_self float_zero r.importance v.importance_range,
    clamp_weight-eq_self float_one r.confidence v.confidence_range,
  )

flag-eq_self : (d : ℕ) → d ≤ 1 → (if d == 0 then 0 else 1) ≡ d
flag-eq_self d h = ground arith

decode_record-put_record :
    (r : MemoryRecord) (ys : List ℕ)
    → IsValid r
    → decode_record (cur (put_record r ++ ys)) ≡ some (r, cur ys)
unfolding decode_record put_record
decode_record-put_record r ys v =
    let ver = version_of-IsVersion r v in
    let known_type = v.type_known in
    let tags = v.tag_count in
    let rels = v.rel_count in
    rw (flag-eq_self r.deleted v.deleted_flag) (
      simp append_assoc (
        read_step _ _ (get_u8-put_u8 (version_of r) _ ver.small)
        ∙ require_step _ _ ver.known
        ∙ read_step _ _ (get_u64-put_u64le r.id _ v.id_range)
        ∙ read_step _ _ (get_u8-put_u8 r.type _ (omega arith))
        ∙ require_step _ _ (le→leb r.type 2 known_type)
        ∙ read_step _ _ (get_u64-put_u64le r.created _ v.created_range)
        ∙ read_step _ _ (get_u64-put_u64le r.updated _ v.updated_range)
        ∙ read_step _ _ (get_u32-put_u32le r.importance _ v.importance_range.0)
        ∙ read_step _ _ (get_u32-put_u32le r.confidence _ v.confidence_range.0)
        ∙ read_step _ _ (get_u8-put_u8 r.deleted _ (omega (arith, v.deleted_flag)))
        ∙ read_step _ _ (get_u64-put_u64le r.expires_at _ v.expires_range)
        ∙ read_step _ _ (get_lenstr-put_lenstr r.agent_id _ v.agent)
        ∙ check_step _ {c = cur _} refl
        ∙ read_step _ _ (get_u16-put_u16le (length r.tags) _ (omega arith))
        ∙ check_step _ {c = cur _} refl
        ∙ bind_step _ _ (decode_tags-put_tags r.tags _ v.tag_strings)
        ∙ bind_step _ _ (
            decode_embedding-put r.embedding r.embedding_dim r.vec_count v.floats_range v.dim_range
              v.vec_range _ (version_of r) ver.two v.floats_count)
        ∙ read_step _ _ (get_u16-put_u16le (length r.relationships) _ (omega arith))
        ∙ check_step _ {c = cur _} refl
        ∙ bind_step _ _ (decode_relationships-put_relationships r.relationships _ v.rels)
        ∙ bind_step _ _ (versioned_fact r v _)
        ∙ bind_step _ _ (versioned_routes r v _)
        ∙ bind_step _ _ (decode_payload-put r.payload ys v.payload_range)
        ∙ check_step _ {c = cur _} refl
        ∙ clamped r v ys))

-- Every valid record is encoded, and what is written reads back as that record, whatever bytes
-- follow it.
pub record_decode-record_encode :
    (r : MemoryRecord) (ys : List ℕ)
    → IsValid r
    → (bytes : List ℕ) × (record_encode r ≡ some bytes) × (record_decode (bytes ++ ys) ≡ some r)
unfolding record_encode record_decode
record_decode-record_encode r ys v =
    (put_record r, rw (encode_refuses-eq_false r v), ap decoded (decode_record-put_record r ys v))
