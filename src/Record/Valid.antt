-- ===== src/Record/Valid.antt =====
-- The records that the codec carries without loss.
use aegisdb.Prelude.{
  ℕ, ◌*◌, ◌^◌, ◌≤◌, ◌<◌, ◌≡◌, ◌⊎◌, true, false, none, some, List, [], ◌∷◌, length, All,
}
use aegisdb.Record.{
  CString, Relationship, FactValue, DerivRoute, MemoryRecord, mem_semantic, no_fact, fact_obj_id,
  fact_obj_string, is_finite, is_below_zero, is_above_one, u16_max,
}
use aegisdb.Record.Cursor.Reads.{IsString, IsStringOrNull}
use aegisdb.Record.Route.Sorted.{IsProvenance}

abbrev pub IsU64 : ℕ → Type 0
IsU64 v = v < 2 ^ 64

-- A finite float of the unit interval, -0.0 included.
abbrev pub IsWeight : ℕ → Type 0
IsWeight x =
    (x < 2 ^ 32) × (is_finite x ≡ true) × (is_below_zero x ≡ false) × (is_above_one x ≡ false)

abbrev pub IsRelationship : Relationship → Type 0
IsRelationship r = IsU64 r.from_id × IsU64 r.to_id × IsStringOrNull r.kind

-- A fact about a record id, and one about a literal.
abbrev pub id_fact : ℕ → CString → ℕ → FactValue
id_fact subject predicate object = record {
  kind = fact_obj_id;
  subject = subject;
  predicate = some predicate;
  object_id = object;
  object_str = none;
}

abbrev pub string_fact : ℕ → CString → CString → FactValue
string_fact subject predicate object = record {
  kind = fact_obj_string;
  subject = subject;
  predicate = some predicate;
  object_id = 0;
  object_str = some object;
}

-- The facts that record_set_fact builds: a predicate that is not empty, and the object that the
-- kind names.
pub data IsFact : FactValue → Type 0 where
  about_id :
      (subject c : ℕ) (cs : CString) (object : ℕ)
      → IsU64 subject
      → IsString (c ∷ cs)
      → IsU64 object
      → IsFact (id_fact subject (c ∷ cs) object)
  about_string :
      (subject c : ℕ) (cs object : CString)
      → IsU64 subject
      → IsString (c ∷ cs)
      → IsString object
      → IsFact (string_fact subject (c ∷ cs) object)

abbrev pub IsRouteRange : DerivRoute → Type 0
IsRouteRange rt = (rt.depth < 2 ^ 16) × All IsU64 rt.premises

-- No vectors at all, or as many floats as the two counts say.
abbrev pub IsEmbedding : List ℕ → ℕ → ℕ → Type 0
IsEmbedding floats dim vecs =
    ((floats ≡ []) × (dim ≡ 0) × (vecs ≡ 0))
    ⊎ ((0 < dim) × (0 < vecs) × (length floats ≡ vecs * dim))

-- What the fact and the routes may be together: a derivation explains a fact.
abbrev pub IsAssertion : FactValue → List DerivRoute → Type 0
IsAssertion f rs = ((f ≡ no_fact) × (rs ≡ [])) ⊎ IsFact f

pub record IsValid (r : MemoryRecord) : Type 0 where
  pub id_range : IsU64 r.id
  pub type_known : r.type ≤ mem_semantic
  pub created_range : IsU64 r.created
  pub updated_range : IsU64 r.updated
  pub importance_range : IsWeight r.importance
  pub confidence_range : IsWeight r.confidence
  pub agent : IsStringOrNull r.agent_id
  pub tag_count : length r.tags ≤ u16_max
  pub tag_strings : All IsString r.tags
  pub vec_range : r.vec_count < 2 ^ 32
  pub dim_range : r.embedding_dim < 2 ^ 32
  pub floats_range : All (λ f. f < 2 ^ 32) r.embedding
  pub floats_count : IsEmbedding r.embedding r.embedding_dim r.vec_count
  pub rel_count : length r.relationships ≤ u16_max
  pub rels : All IsRelationship r.relationships
  pub assertion : IsAssertion r.fact r.routes
  pub provenance : IsProvenance r.routes
  pub route_ranges : All IsRouteRange r.routes
  pub payload_range : length r.payload < 2 ^ 32
  pub expires_range : IsU64 r.expires_at
  pub deleted_flag : r.deleted ≤ 1
