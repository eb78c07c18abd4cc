-- ===== src/Record/Stages.antt =====
-- Each part of a record, read back by the part of record_decode that it belongs to.
pub mod Vectors
pub mod Provenance
use native.Mathlib.Nat.{mod-eq_of_lt}
use aegisdb.Prelude.{
  ◌%◌, ℕ, zero, suc, ◌+◌, ◌*◌, ◌^◌, ◌≤◌, ◌<◌, ◌≡◌, refl, ap, ◌∙◌, Bool, true, false, Option, none,
  some, List, [], ◌∷◌, ◌++◌, not, ltb, leb, ◌==◌, take-append, drop-append, if◌then◌else◌, length,
  All, arith, append_assoc, inl, inr,
}
use aegisdb.Bytes.{put_u32le, put_u64le}
use aegisdb.Record.{CString, Relationship, FactValue, fact_obj_id, fact_obj_string}
use aegisdb.Record.Cursor.{get_u8, get_u32, get_u64, get_lenstr}
use aegisdb.Record.Cursor.Reads.{
  cur, not_short, IsString, IsStringOrNull, get_u8-put_u8, get_u32-put_u32le, get_u64-put_u64le,
  get_lenstr-put_lenstr,
}
use aegisdb.Record.Encode.{put_u8, put_lenstr, put_tags, put_relationships, put_fact}
use aegisdb.Record.Decoder.{bind_step, read_step, check_step, present_step, require_step, present}
use aegisdb.Record.Decode.{
  decode_tags, decode_relationships, decode_object, decode_fact, decode_payload, take_payload,
}
use aegisdb.Record.Fact.{set_fact}
use aegisdb.Record.Valid.{IsU64, IsRelationship, IsFact, about_id, about_string}

pub decode_tags-put_tags :
    (ts : List CString) (ys : List ℕ)
    → All IsString ts
    → decode_tags (length ts) (cur (put_tags ts ++ ys)) ≡ some (ts, cur ys)
unfolding decode_tags put_tags
decode_tags-put_tags [] ys h = refl
decode_tags-put_tags (t ∷ ts) ys (p, h) = rw (append_assoc (put_lenstr (some t)) (put_tags ts) ys) (
    read_step _ _ (get_lenstr-put_lenstr (some t) (put_tags ts ++ ys) p)
    ∙ check_step _ {c = cur _} refl
    ∙ present_step _ _ _
    ∙ bind_step _ _ (decode_tags-put_tags ts ys h))

pub decode_relationships-put_relationships :
    (rs : List Relationship) (ys : List ℕ)
    → All IsRelationship rs
    → decode_relationships (length rs) (cur (put_relationships rs ++ ys)) ≡ some (rs, cur ys)
unfolding decode_relationships put_relationships
decode_relationships-put_relationships [] ys h = refl
decode_relationships-put_relationships (r ∷ rs) ys ((from, to, kind), h) = simp append_assoc (
    read_step _ _ (get_u64-put_u64le r.from_id _ from)
    ∙ read_step _ _ (get_u64-put_u64le r.to_id _ to)
    ∙ read_step _ _ (get_lenstr-put_lenstr r.kind _ kind)
    ∙ check_step _ {c = cur _} refl
    ∙ bind_step _ _ (decode_relationships-put_relationships rs ys h))

pub decode_fact-put_fact :
    (f : FactValue) (ys : List ℕ)
    → IsFact f
    → decode_fact (cur (put_fact f ++ ys)) ≡ some (f, cur ys)
unfolding decode_fact decode_object put_fact set_fact
decode_fact-put_fact f ys (about_id subject c cs object hs hp ho) = simp append_assoc (
    read_step _ _ (get_u8-put_u8 fact_obj_id _ (omega arith))
    ∙ check_step _ {c = cur _} refl
    ∙ require_step _ _ refl
    ∙ read_step _ _ (get_u64-put_u64le subject _ hs)
    ∙ read_step _ _ (get_lenstr-put_lenstr (some (c ∷ cs)) _ hp)
    ∙ check_step _ {c = cur _} refl
    ∙ present_step _ _ _
    ∙ read_step _ _ (get_u64-put_u64le object _ ho)
    ∙ check_step _ {c = cur _} refl
    ∙ unfold present in refl)
decode_fact-put_fact f ys (about_string subject c cs object hs hp ho) = simp append_assoc (
    read_step _ _ (get_u8-put_u8 fact_obj_string _ (omega arith))
    ∙ check_step _ {c = cur _} refl
    ∙ require_step _ _ refl
    ∙ read_step _ _ (get_u64-put_u64le subject _ hs)
    ∙ read_step _ _ (get_lenstr-put_lenstr (some (c ∷ cs)) _ hp)
    ∙ check_step _ {c = cur _} refl
    ∙ present_step _ _ _
    ∙ read_step _ _ (get_lenstr-put_lenstr (some object) _ ho)
    ∙ check_step _ {c = cur _} refl
    ∙ present_step _ _ _
    ∙ unfold present in refl)

take_payload-append :
    (bytes ys : List ℕ) → take_payload (length bytes) (cur (bytes ++ ys)) ≡ some (bytes, cur ys)
take_payload-append bytes ys = rw (not_short bytes ys, take-append bytes ys, drop-append bytes ys)

pub decode_payload-put :
    (bytes ys : List ℕ)
    → length bytes < 2 ^ 32
    → decode_payload (cur (put_u32le (length bytes % 2 ^ 32) ++ (bytes ++ ys)))
      ≡ some (bytes, cur ys)
unfolding decode_payload
decode_payload-put bytes ys h = rw (mod-eq_of_lt h) (
    read_step _ _ (get_u32-put_u32le (length bytes) (bytes ++ ys) h)
    ∙ check_step _ {c = cur _} refl
    ∙ take_payload-append bytes ys)
