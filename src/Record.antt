-- ===== src/Record.antt =====
-- include/aegisdb/record.h and src/memory/record.c: the stored record, its fields and their limits.
-- An owned C string is the list of its bytes before the NUL, and NULL is `none`; an array and its
-- count are one list. A `float` is its IEEE-754 bit pattern, since the code moves floats by
-- `memcpy` and only ever compares a weight with 0 and 1. A C enum is the number that it stands for,
-- since the code tests all three enums for values that have no name.
pub mod Route
pub mod Fact
pub mod Encode
pub mod Cursor
pub mod Decoder
pub mod Decode
pub mod Valid
pub mod Stages
pub mod RoundTrip
pub mod Clone
pub mod Tags
use aegisdb.Prelude.{
  ℕ, ◌-◌, ◌/◌, ◌%◌, ◌^◌, Bool, Option, none, List, [], ◌∷◌, ◌&&◌, ◌||◌, ltb, leb, ◌==◌,
}

abbrev pub CString : Type 0
CString = List ℕ

-- enum MemoryType
abbrev pub mem_semantic : ℕ
mem_semantic = 2

-- enum FactKind
abbrev pub fact_none : ℕ
fact_none = 0

abbrev pub fact_obj_id : ℕ
fact_obj_id = 1

abbrev pub fact_obj_string : ℕ
fact_obj_string = 2

-- enum DerivRule
abbrev pub deriv_transitive : ℕ
deriv_transitive = 1

abbrev pub deriv_symmetric : ℕ
deriv_symmetric = 2

abbrev pub deriv_inverse : ℕ
deriv_inverse = 3

abbrev pub deriv_max_premises : ℕ
deriv_max_premises = 8

abbrev pub deriv_max_routes : ℕ
deriv_max_routes = 4

abbrev pub u16_max : ℕ
u16_max = 2 ^ 16 - 1

abbrev pub u32_max : ℕ
u32_max = 2 ^ 32 - 1

-- #define NULL_LEN, the length that marks a NULL string
abbrev pub null_len : ℕ
null_len = u32_max

pub record Relationship : Type 0 where
  pub from_id : ℕ
  pub to_id : ℕ
  pub kind : Option CString

pub record FactValue : Type 0 where
  pub kind : ℕ
  pub subject : ℕ
  pub predicate : Option CString
  pub object_id : ℕ
  pub object_str : Option CString

-- `premises` holds the first `premise_count` cells of the source's array of eight.
pub record DerivRoute : Type 0 where
  pub rule : ℕ
  pub depth : ℕ
  pub premises : List ℕ

pub record MemoryRecord : Type 0 where
  pub id : ℕ
  pub type : ℕ
  pub created : ℕ
  pub updated : ℕ
  pub importance : ℕ
  pub confidence : ℕ
  pub agent_id : Option CString
  pub tags : List CString
  pub embedding : List ℕ
  pub embedding_dim : ℕ
  pub vec_count : ℕ
  pub relationships : List Relationship
  pub fact : FactValue
  pub routes : List DerivRoute
  pub payload : List ℕ
  pub expires_at : ℕ
  pub deleted : ℕ

-- The zeroed Fact.
abbrev pub no_fact : FactValue
no_fact = record {
  kind = fact_none;
  subject = 0;
  predicate = none;
  object_id = 0;
  object_str = none;
}

-- The bit patterns of 0.0F and 1.0F.
abbrev pub float_zero : ℕ
float_zero = 0

abbrev pub float_one : ℕ
float_one = 0x3f80_0000

-- `isfinite(x)`: the exponent bits are not all ones.
abbrev pub is_finite : ℕ → Bool
is_finite x = ltb (x % 2 ^ 31) 0x7f80_0000

-- `x < 0.0F` of a finite `x`: the sign bit is set, and `x` is not -0.0.
abbrev pub is_below_zero : ℕ → Bool
is_below_zero x = ltb 0 (x / 2 ^ 31) && ltb 0 (x % 2 ^ 31)

-- `x > 1.0F` of a finite `x`.
abbrev pub is_above_one : ℕ → Bool
is_above_one x = x / 2 ^ 31 == 0 && ltb float_one (x % 2 ^ 31)

-- `rule != DERIV_TRANSITIVE && rule != DERIV_SYMMETRIC && rule != DERIV_INVERSE`, negated.
abbrev pub is_rule : ℕ → Bool
is_rule rule = rule == deriv_transitive || rule == deriv_symmetric || rule == deriv_inverse

abbrev pub is_object_kind : ℕ → Bool
is_object_kind kind = kind == fact_obj_id || kind == fact_obj_string

-- record_init: all fields zero, but `confidence` is 1.0.
unfoldable pub record_init : MemoryRecord
record_init = record {
  id = 0;
  type = 0;
  created = 0;
  updated = 0;
  importance = float_zero;
  confidence = float_one;
  agent_id = none;
  tags = [];
  embedding = [];
  embedding_dim = 0;
  vec_count = 0;
  relationships = [];
  fact = no_fact;
  routes = [];
  payload = [];
  expires_at = 0;
  deleted = 0;
}
