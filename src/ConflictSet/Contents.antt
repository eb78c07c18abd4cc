-- ===== src/ConflictSet/Contents.antt =====
-- conflict_set_add: which pairs are kept.
use aegisdb.Prelude.{
  ℕ, ◌+◌, ◌-◌, ◌≤◌, ◌<◌, ◌≡◌, refl, ◌∙◌, inl, inr, true, false, Bool-cases, Option, none, some,
  List, [], ◌∷◌, ◌++◌, ltb, leb, ◌==◌, ◌&&◌, ◌||◌, length, length-append, length-take, All, arith,
}
use aegisdb.Record.{CString}
use aegisdb.ConflictSet.{
  ConflictPair, ConflictSet, stored, duplicate, copy_bounded, has_pair, add_ordered, add, ns_max,
  predicate_max, reason_max,
}

-- A pair as it is stored: the smaller id first, neither of them 0, and strings that fit their
-- fields with their NUL.
pub record IsPair (p : ConflictPair) : Type 0 where
  pub nonzero : 0 < p.a
  pub ordered : p.a < p.b
  pub ns_fits : length p.ns ≤ ns_max
  pub predicate_a_fits : length p.predicate_a ≤ predicate_max
  pub predicate_b_fits : length p.predicate_b ≤ predicate_max
  pub reason_fits : length p.reason ≤ reason_max

-- No two pairs have the same two ids.
unfoldable pub IsDistinct : List ConflictPair → Type 0
IsDistinct [] = Unit
IsDistinct (p ∷ ps) = (has_pair p.a p.b ps ≡ false) × IsDistinct ps

pub record IsValid (cs : ConflictSet) : Type 0 where
  pub pairs : All IsPair cs.items
  pub distinct : IsDistinct cs.items
  pub fits : length cs.items ≤ cs.cap

has_pair-append :
    (a b : ℕ) (ps : List ConflictPair) (p : ConflictPair)
    → has_pair a b (ps ++ p ∷ []) ≡ has_pair a b ps || (p.a == a && p.b == b)
unfolding has_pair
has_pair-append a b [] p = ground arith
has_pair-append a b (q ∷ ps) p = ground (arith, has_pair-append a b ps p)

append-IsDistinct :
    (ps : List ConflictPair) (p : ConflictPair)
    → IsDistinct ps
    → has_pair p.a p.b ps ≡ false
    → IsDistinct (ps ++ p ∷ [])
unfolding IsDistinct has_pair
append-IsDistinct [] p d h = (refl, tt)
append-IsDistinct (q ∷ ps) p (e, d) h =
    (has_pair-append q.a q.b ps p ∙ ground (arith, e), append-IsDistinct ps p d (ground arith))

append-All :
    (ps : List ConflictPair) (p : ConflictPair)
    → All IsPair ps
    → IsPair p
    → All IsPair (ps ++ p ∷ [])
append-All [] p d h = (h, tt)
append-All (q ∷ ps) p (e, d) h = (e, append-All ps p d h)

copy_bounded-fits : (size : ℕ) (s : Option CString) → length (copy_bounded (size + 1) s) ≤ size
unfolding copy_bounded
copy_bounded-fits size none = omega arith
copy_bounded-fits size (some s) =
    ground (arith, length-take (size + 1 - 1) s, length-take (length s) s)

module _ (cs : ConflictSet) (a b : ℕ) (ns pa pb reason : Option CString) where
  -- The pair that a call stores.
  abbrev new_pair : ConflictPair
  new_pair = record {
    a = a;
    b = b;
    ns = copy_bounded (ns_max + 1) ns;
    predicate_a = copy_bounded (predicate_max + 1) pa;
    predicate_b = copy_bounded (predicate_max + 1) pb;
    reason = copy_bounded (reason_max + 1) reason;
  }

  add_ordered-IsValid : 0 < a → a < b → IsValid cs → IsValid (add_ordered cs a b ns pa pb reason).1
  unfolding add_ordered
  add_ordered-IsValid za lt v = elim (Bool-cases (has_pair a b cs.items)) [
    | inl old ↦ rw old v
    | inr new ↦ elim (Bool-cases (leb cs.cap (length cs.items))) [
      | inl full ↦ rw (new, full) (record { pairs = v.pairs; distinct = v.distinct; fits = v.fits })
      | inr room ↦
          rw (new, room)
            (record {
              pairs = append-All cs.items new_pair v.pairs (record {
                nonzero = za;
                ordered = lt;
                ns_fits = copy_bounded-fits ns_max ns;
                predicate_a_fits = copy_bounded-fits predicate_max pa;
                predicate_b_fits = copy_bounded-fits predicate_max pb;
                reason_fits = copy_bounded-fits reason_max reason;
              });
              distinct = append-IsDistinct cs.items new_pair v.distinct new;
              fits = ground (arith, length-append cs.items (new_pair ∷ []));
            })
    ]
  ]

-- Whatever conflict_set_add is given, and whatever it answers, a valid set stays valid: at most
-- `cap` pairs, each with the smaller id first and never 0, no pair twice, and every string within
-- its field.
pub add-set_IsValid :
    (cs : ConflictSet) (a b : ℕ) (ns pa pb reason : Option CString)
    → IsValid cs
    → IsValid (add cs a b ns pa pb reason).1
unfolding add
add-set_IsValid cs a b ns pa pb reason v = elim (Bool-cases (a == 0 || b == 0 || a == b)) [
  | inl bad ↦ rw bad v
  | inr fine ↦ elim (Bool-cases (ltb b a)) [
    | inl swap ↦
        rw (fine, swap) (add_ordered-IsValid cs b a ns pb pa reason (ground arith) (ground arith) v)
    | inr keep ↦
        rw (fine, keep) (add_ordered-IsValid cs a b ns pa pb reason (ground arith) (ground arith) v)
  ]
]

-- A pair is the same whichever of the two records the scan reached first, with its predicate.
pub add-swap :
    (cs : ConflictSet) (a b : ℕ) (ns pa pb reason : Option CString)
    → add cs a b ns pa pb reason ≡ add cs b a ns pb pa reason
unfolding add
add-swap cs a b ns pa pb reason = ground arith

module _ (cs : ConflictSet) (a b : ℕ) (ns pa pb reason : Option CString) where
  add_ordered-again :
      (ns' pa' pb' reason' : Option CString)
      → (add_ordered cs a b ns pa pb reason).0 ≡ stored
      → add_ordered (add_ordered cs a b ns pa pb reason).1 a b ns' pa' pb' reason'
        ≡ (duplicate, (add_ordered cs a b ns pa pb reason).1)
  unfolding add_ordered
  add_ordered-again ns' pa' pb' reason' = elim (Bool-cases (has_pair a b cs.items)) [
    | inl old ↦ rw old (λ e. cc)
    | inr new ↦ elim (Bool-cases (leb cs.cap (length cs.items))) [
      | inl full ↦ rw (new, full) (λ e. cc)
      | inr room ↦
          let p = new_pair cs a b ns pa pb reason in
          let there : has_pair a b (cs.items ++ p ∷ []) ≡ true =
            has_pair-append a b cs.items p ∙ ground arith in
          rw (new, room, there) (λ e. refl)
    ]
  ]

-- What was stored once is reported as a duplicate from then on, whatever the strings are, and the
-- set stays as it is.
pub add-again :
    (cs : ConflictSet) (a b : ℕ) (ns pa pb reason ns' pa' pb' reason' : Option CString)
    → (add cs a b ns pa pb reason).0 ≡ stored
    → add (add cs a b ns pa pb reason).1 a b ns' pa' pb' reason'
      ≡ (duplicate, (add cs a b ns pa pb reason).1)
unfolding add
add-again cs a b ns pa pb reason ns' pa' pb' reason' =
    elim (Bool-cases (a == 0 || b == 0 || a == b)) [
      | inl bad ↦ rw bad (λ e. cc)
      | inr fine ↦ elim (Bool-cases (ltb b a)) [
        | inl swap ↦ rw (fine, swap) (add_ordered-again cs b a ns pb pa reason ns' pb' pa' reason')
        | inr keep ↦ rw (fine, keep) (add_ordered-again cs a b ns pa pb reason ns' pa' pb' reason')
      ]
    ]
