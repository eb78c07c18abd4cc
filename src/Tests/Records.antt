-- ===== src/Tests/Records.antt =====
-- A record with every kind of field, and two derivation routes.
use Prim.Native.Nat.{Ordering}
use aegisdb.Prelude.{ℕ, ◌≡◌, ◌≢◌, refl, inr, none, some, List, [], ◌∷◌, ◌++◌, arith}
use aegisdb.Record.{DerivRoute, MemoryRecord}
use aegisdb.Record.Encode.{record_encode}
use aegisdb.Record.Decode.{record_decode}
use aegisdb.Record.Route.{add_route, route_cmp, cmp_premises}
use aegisdb.Record.Route.Insert.{insert_sorted, add_route-insert_sorted}
use aegisdb.Record.Route.Sorted.{IsProvenance, add_route-IsProvenance}
use aegisdb.Record.Valid.{about_string, string_fact, IsValid}
use aegisdb.Record.RoundTrip.{record_decode-record_encode}

abbrev by_symmetry : DerivRoute
by_symmetry = record { rule = 2; depth = 1; premises = 3 ∷ [] }

abbrev by_transitivity : DerivRoute
by_transitivity = record { rule = 1; depth = 2; premises = 3 ∷ 4 ∷ [] }

abbrev by_inverse : DerivRoute
by_inverse = record { rule = 3; depth = 1; premises = 4 ∷ [] }

abbrev two_routes : List DerivRoute
two_routes = by_symmetry ∷ by_transitivity ∷ []

two_routes-IsProvenance : IsProvenance two_routes
unfolding route_cmp cmp_premises
two_routes-IsProvenance = record {
  few = omega arith;
  sorted = ((refl, tt), (tt, tt));
  known = ((refl, omega arith, omega arith), ((refl, omega arith, omega arith), tt));
}

abbrev sample : MemoryRecord
sample = record {
  id = 12;
  type = 2;
  created = 1000;
  updated = 1001;
  importance = 0x3f00_0000;
  confidence = 0x3f80_0000;
  agent_id = some (97 ∷ 98 ∷ []);
  tags = (116 ∷ []) ∷ [];
  embedding = 0x3f80_0000 ∷ 0 ∷ [];
  embedding_dim = 2;
  vec_count = 1;
  relationships = record { from_id = 12; to_id = 3; kind = none } ∷ [];
  fact = string_fact 12 (112 ∷ []) (111 ∷ []);
  routes = two_routes;
  payload = 0 ∷ 255 ∷ [];
  expires_at = 0;
  deleted = 0;
}

sample-IsValid : IsValid sample
sample-IsValid = record {
  id_range = omega arith;
  type_known = omega arith;
  created_range = omega arith;
  updated_range = omega arith;
  importance_range = (omega arith, refl, refl, refl);
  confidence_range = (omega arith, refl, refl, refl);
  agent = ((omega arith, (omega arith, tt)), omega arith);
  tag_count = omega arith;
  tag_strings = (((omega arith, tt), omega arith), tt);
  vec_range = omega arith;
  dim_range = omega arith;
  floats_range = (omega arith, (omega arith, tt));
  floats_count = inr (omega arith, omega arith, refl);
  rel_count = omega arith;
  rels = ((omega arith, omega arith, tt), tt);
  assertion = inr (
      about_string 12 112 [] (111 ∷ []) (omega arith) ((omega arith, tt), omega arith)
        ((omega arith, tt), omega arith));
  provenance = two_routes-IsProvenance;
  route_ranges =
      ((omega arith, (omega arith, tt)), ((omega arith, (omega arith, (omega arith, tt))), tt));
  payload_range = omega arith;
  expires_range = omega arith;
  deleted_flag = omega arith;
}

record_decode-record_encode_example :
    (bytes : List ℕ) × (record_encode sample ≡ some bytes)
    × (record_decode (bytes ++ 7 ∷ []) ≡ some sample)
record_decode-record_encode_example = record_decode-record_encode sample (7 ∷ []) sample-IsValid

add_route-IsProvenance_example : IsProvenance (add_route two_routes by_inverse).1
add_route-IsProvenance_example =
    add_route-IsProvenance two_routes by_inverse two_routes-IsProvenance

add_route-insert_sorted_example :
    (add_route two_routes by_inverse).1 ≡ by_symmetry ∷ by_transitivity ∷ by_inverse ∷ []
unfolding insert_sorted route_cmp cmp_premises
add_route-insert_sorted_example =
    add_route-insert_sorted by_inverse two_routes (omega arith) (refl, omega arith, omega arith)

differ : route_cmp by_inverse by_symmetry ≢ Ordering.eq
unfolding route_cmp cmp_premises
differ h = cc
