-- ===== src/OpenTable/Count.antt =====
-- How many entries a table holds, when a probe in it ends, and the table of calloc.
use aegisdb.Prelude.{
  ℕ, zero, suc, ◌+◌, ◌%◌, ◌≤◌, ◌<◌, ◌≡◌, refl, sym, ap, ◌∙◌, inl, inr, Option, Option-cases, none,
  some, none_some, List, [], ◌∷◌, length, get_or, set, replicate, arith,
}
use native.Mathlib.Nat.{mod-lt}
use aegisdb.OpenTable.{Keyed, slot, look, held, one_if, IsFound}
use aegisdb.OpenTable.Probe.{probe_for-total}
use aegisdb.OpenTable.Table.{look-Stands}

module _ {A : Type 0} (K : Keyed A) where
  pub one_if_le : (o : Option ℕ) → one_if K o ≤ 1
  one_if_le none = omega arith
  one_if_le (some id) = omega arith

  pub held_le : (t : List A) → held K t ≤ length t
  held_le [] = omega arith
  held_le (e ∷ es) = omega (arith, held_le es, one_if_le (K.key e))

  pub held-set :
      (t : List A) (k : ℕ) (e : A)
      → k < length t
      → held K (set t k e) + one_if K (K.key (get_or t k K.vacant)) ≡ held K t + one_if K (K.key e)
  held-set [] k e h = absurd (omega arith)
  held-set (x ∷ xs) zero e h = omega arith
  held-set (x ∷ xs) (suc k) e h = omega (arith, held-set xs k e (omega (arith, h)))

  free_slot_in :
      (e : A) (es : List A) (o : Option ℕ)
      → K.key e ≡ o
      → one_if K o + held K es < suc (length es)
      → (held K es < length es → (k : ℕ) × (k < length es) × (K.key (get_or es k K.vacant) ≡ none))
      → (k : ℕ) × (k < suc (length es)) × (K.key (get_or (e ∷ es) k K.vacant) ≡ none)
  free_slot_in e es none p h f = (0, omega arith, p)
  free_slot_in e es (some id) p h f =
      let (k, l, n) = f (omega (arith, h)) in (suc k, omega (arith, l), n)

  -- A table with fewer entries than slots has a free slot.
  free_slot :
      (t : List A)
      → held K t < length t
      → (k : ℕ) × (k < length t) × (K.key (get_or t k K.vacant) ≡ none)
  free_slot [] h = absurd (omega arith)
  free_slot (e ∷ es) h = free_slot_in e es (K.key e) refl h (free_slot es)

  pub slot-total : (t : List A) (id : ℕ) → held K t < length t → (k : ℕ) × (slot K t id ≡ some k)
  slot-total t id h =
      let (k, l, n) = free_slot t h in
      probe_for-total (K.stop id) K.vacant t (K.start id % length t) k
        (mod-lt (K.start id) (omega (arith, l))) l (K.stop_free id (get_or t k K.vacant) n)

  pub held-replicate : (n : ℕ) → held K (replicate n K.vacant) ≡ 0
  held-replicate zero = refl
  held-replicate (suc n) = rw (K.vacant_free, held-replicate n)

  get_or-replicate : (n k : ℕ) → get_or (replicate n K.vacant) k K.vacant ≡ K.vacant
  get_or-replicate zero k = refl
  get_or-replicate (suc n) zero = refl
  get_or-replicate (suc n) (suc k) = get_or-replicate n k

  pub replicate-IsFound : (n : ℕ) → IsFound K (replicate n K.vacant)
  replicate-IsFound n = record {
    found = λ id k l h. none_some id (sym (ap K.key (get_or-replicate n k) ∙ K.vacant_free) ∙ h);
  }

  pub look-replicate : (n id : ℕ) → look K (replicate n K.vacant) id ≡ none
  look-replicate n id = elim (Option-cases (look K (replicate n K.vacant) id)) [
    | inl h ↦ h
    | inr (e, h) ↦
        let (k, r) = look-Stands K (replicate n K.vacant) id e h in
        let (l, p, q) = r in
        none_some id (sym (ap K.key (sym p ∙ get_or-replicate n k) ∙ K.vacant_free) ∙ q)
  ]
