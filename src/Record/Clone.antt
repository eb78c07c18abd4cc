-- ===== src/Record/Clone.antt =====
-- record_clone of src/memory/record.c. Allocation is assumed to succeed, so that strings, tags,
-- relationships and the payload are copied as they are.
use aegisdb.Prelude.{
  ◌>>=◌, ℕ, ◌-◌, ◌/◌, ◌^◌, ◌*◌, ◌≤◌, ◌≡◌, refl, ap, ◌∙◌, false, Option, none, some, List, [], ◌∷◌,
  ◌++◌, ◌||◌, ltb, ◌==◌, if◌then◌else◌, inl, inr, length, take, arith, append_assoc, append-nil,
}
use native.Mathlib.Nat.{le-div_iff_mul-le}
use aegisdb.Record.{FactValue, DerivRoute, MemoryRecord, no_fact, fact_none}
use aegisdb.Record.Fact.{set_fact}
use aegisdb.Record.Route.{AddResult, added, redundant, refused, add_route}
use aegisdb.Record.Route.Sorted.{IsProvenance}
use aegisdb.Record.Route.Last.{add_route-last}
use aegisdb.Record.Valid.{about_id, about_string, IsAssertion, IsEmbedding, IsValid}

-- One fallible step of the copy; `none` is `goto fail`.

unfoldable pub clone_fact : FactValue → Option FactValue
clone_fact f =
    if f.kind == fact_none
    then some no_fact
    else set_fact f.kind f.subject f.predicate f.object_id f.object_str

-- A route that is refused fails the copy; a redundant one does not.
abbrev pub accept : AddResult × List DerivRoute → Option (List DerivRoute)
accept (added, rs) = some rs
accept (redundant, rs) = some rs
accept (refused, rs) = none

unfoldable pub clone_routes : List DerivRoute → List DerivRoute → Option (List DerivRoute)
clone_routes copied [] = some copied
clone_routes copied (rt ∷ rts) = accept (add_route copied rt) >>= λ rs. clone_routes rs rts

-- The floats and the two counts of the copy.
unfoldable pub clone_embedding : MemoryRecord → Option (List ℕ × ℕ × ℕ)
clone_embedding r =
    if r.embedding_dim == 0 || r.vec_count == 0
    then some ([], 0, 0)
    else if ltb ((2 ^ 64 - 1) / 4 / r.embedding_dim) r.vec_count
    then none
    else some (take (r.vec_count * r.embedding_dim) r.embedding, r.embedding_dim, r.vec_count)

unfoldable pub record_clone : MemoryRecord → Option MemoryRecord
record_clone src = do
  fact ← clone_fact src.fact
  routes ← clone_routes [] src.routes
  vectors ← clone_embedding src
  some (record src {
    fact = fact;
    routes = routes;
    embedding = vectors.0;
    embedding_dim = vectors.1;
    vec_count = vectors.2;
  })

clone_fact-eq_self :
    (f : FactValue) (rs : List DerivRoute) → IsAssertion f rs → clone_fact f ≡ some f
unfolding clone_fact set_fact
clone_fact-eq_self f rs (inl (e, d)) = rw e
clone_fact-eq_self f rs (inr (about_id subject c cs object hs hp ho)) = refl
clone_fact-eq_self f rs (inr (about_string subject c cs object hs hp ho)) = refl

clone_routes-append :
    (copied rts : List DerivRoute)
    → IsProvenance (copied ++ rts)
    → clone_routes copied rts ≡ some (copied ++ rts)
unfolding clone_routes
clone_routes-append copied [] h = rw (append-nil copied)
clone_routes-append copied (rt ∷ rts) h = rw (add_route-last copied rt rts h) (
    clone_routes-append (copied ++ rt ∷ []) rts (rw (append_assoc copied (rt ∷ []) rts) h)
    ∙ ap (λ (l : List DerivRoute). some l) (append_assoc copied (rt ∷ []) rts))

take-length : (xs : List ℕ) → take (length xs) xs ≡ xs
take-length [] = refl
take-length (x ∷ xs) = ap (λ (l : List ℕ). x ∷ l) (take-length xs)

module _ (r : MemoryRecord) (fits : r.vec_count * r.embedding_dim ≤ (2 ^ 64 - 1) / 4) where
  clone_embedding-eq_self :
      IsEmbedding r.embedding r.embedding_dim r.vec_count
      → clone_embedding r ≡ some (r.embedding, r.embedding_dim, r.vec_count)
  unfolding clone_embedding
  clone_embedding-eq_self (inl (no_floats, no_dim, no_vecs)) = rw (no_floats, no_dim, no_vecs)
  clone_embedding-eq_self (inr (dims, vecs, count)) =
      let d : (r.embedding_dim == 0) ≡ false = ground arith in
      let v : (r.vec_count == 0) ≡ false = ground arith in
      let room = (le-div_iff_mul-le dims).1 fits in
      let small : ltb ((2 ^ 64 - 1) / 4 / r.embedding_dim) r.vec_count ≡ false = ground arith in
      rw (d, v, small, ← count, take-length r.embedding)

  -- A valid record whose floats can be counted in bytes by a size_t is copied as it is.
  pub record_clone-eq_self : IsValid r → record_clone r ≡ some r
  unfolding record_clone
  record_clone-eq_self v = rw (
    clone_fact-eq_self r.fact r.routes v.assertion,
    clone_routes-append [] r.routes v.provenance,
    clone_embedding-eq_self v.floats_count,
  )
