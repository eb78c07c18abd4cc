-- ===== src/ConflictSet/Listing.antt =====
-- conflict_set_list against a filter.
use aegisdb.Prelude.{
  ℕ, suc, ◌+◌, ◌-◌, ◌≡◌, Bool-cases, inl, inr, Option, List, [], ◌∷◌, ltb, if◌then◌else◌, length,
  take, take-nil, arith,
}
use aegisdb.Record.{CString}
use aegisdb.ConflictSet.{ConflictPair, ConflictSet, matches, list_from, list}

-- The pairs of a namespace, or all of them.
unfoldable pub of_ns : Option CString → List ConflictPair → List ConflictPair
of_ns ns [] = []
of_ns ns (p ∷ ps) = let rest = of_ns ns ps in if matches ns p then p ∷ rest else rest

module _ (ns : Option CString) (max : ℕ) where
  list_from-of_ns :
      (written matched : ℕ) (ps : List ConflictPair)
      → list_from ns max written matched ps
        ≡ (take (max - written) (of_ns ns ps), matched + length (of_ns ns ps))
  unfolding list_from of_ns
  list_from-of_ns written matched [] =
      let e : matched + 0 ≡ matched = omega arith in
      rw (take-nil {A = ConflictPair} (max - written), e)
  list_from-of_ns written matched (p ∷ ps) = elim (Bool-cases (matches ns p)) [
    | inr skip ↦ rw skip (list_from-of_ns written matched ps)
    | inl hit ↦ elim (Bool-cases (ltb written max)) [
      | inl room ↦
          let k : max - written ≡ suc (max - (written + 1)) = ground arith in
          let m : matched + 1 + length (of_ns ns ps) ≡ matched + suc (length (of_ns ns ps)) =
            omega arith in
          rw (hit, room, list_from-of_ns (written + 1) (matched + 1) ps, k, m)
      | inr full ↦
          let k : max - written ≡ 0 = ground arith in
          let m : matched + 1 + length (of_ns ns ps) ≡ matched + suc (length (of_ns ns ps)) =
            omega arith in
          rw (hit, full, list_from-of_ns written (matched + 1) ps, k, m)
    ]
  ]

  -- conflict_set_list writes the first `max` pairs of the namespace (of all namespaces when it is
  -- NULL or empty), in the order in which they were recorded, and its total counts all of them.
  pub list-of_ns :
      (cs : ConflictSet)
      → list cs ns max ≡ (take max (of_ns ns cs.items), length (of_ns ns cs.items))
  unfolding list
  list-of_ns cs =
      let k : max - 0 ≡ max = omega arith in
      let z : 0 + length (of_ns ns cs.items) ≡ length (of_ns ns cs.items) = omega arith in
      rw (list_from-of_ns 0 0 cs.items, k, z)
