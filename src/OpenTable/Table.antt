-- ===== src/OpenTable/Table.antt =====
-- A table after an entry is stored in the slot where the probe for its key ended.
use aegisdb.Prelude.{
  ℕ, ◌%◌, ◌<◌, ◌≡◌, ◌≢◌, sym, ap, ◌∙◌, subst, inl, inr, true, false, Bool-cases, Option-cases, none,
  some, none_some, List, [], ◌∷◌, ◌==◌, ==_refl, length, length-set, get_or, set, get_or-set_same,
  get_or-set_other, arith,
}
use native.Mathlib.Nat.{mod-lt}
use aegisdb.OpenTable.{Keyed, probe_for, slot, look, entry_in, IsFound}
use aegisdb.OpenTable.Probe.{some-eq, true_false, probe_for-inside, probe_for-kept}

module _ {A : Type 0} (K : Keyed A) where
  -- The entry stands in the table, under the key.
  abbrev pub Stands : List A → ℕ → ℕ → A → Type 0
  Stands t id k e = (k < length t) × (get_or t k K.vacant ≡ e) × (K.key e ≡ some id)

  key-same : (id id' : ℕ) (e : A) → K.stop id e ≡ true → K.key e ≡ some id' → id' ≡ id
  key-same id id' e s h =
      let b : (id' == id) ≡ true = sym (K.stop_held id id' e h) ∙ s in ground arith

  pub slot-inside :
      (t : List A) (id k : ℕ)
      → slot K t id ≡ some k
      → (k < length t) × (K.stop id (get_or t k K.vacant) ≡ true)
  unfolding probe_for
  slot-inside [] id k e = none_some k e
  slot-inside (a ∷ es) id k e =
      let t = a ∷ es in
      probe_for-inside (K.stop id) K.vacant t (length t) (K.start id % length t) k
        (mod-lt (K.start id) (omega arith)) e

  pub slot-held :
      (t : List A) (id id' k : ℕ)
      → slot K t id ≡ some k
      → K.key (get_or t k K.vacant) ≡ some id'
      → id' ≡ id
  slot-held t id id' k e h = key-same id id' (get_or t k K.vacant) ((slot-inside t id k e).1) h

  pub look-here :
      (t : List A) (id k : ℕ) (e : A) → IsFound K t → Stands t id k e → look K t id ≡ some e
  unfolding look
  look-here t id k e f (l, p, h) =
      let h' : K.key (get_or t k K.vacant) ≡ some id = ap K.key p ∙ h in
      rw (f.found id k l h', p, h)

  look-slot :
      (t : List A) (id : ℕ) (e : A) (k : ℕ)
      → slot K t id ≡ some k
      → entry_in K t (some k) ≡ some e
      → Stands t id k e
  look-slot t id e k p q = elim (Option-cases (K.key (get_or t k K.vacant))) [
    | inl n ↦ let q' : none ≡ some e = rw n at q in none_some e q'
    | inr (id', m) ↦
        let q' : some (get_or t k K.vacant) ≡ some e = rw m at q in
        let c : get_or t k K.vacant ≡ e = cc in
        let d = slot-held t id id' k p m in
        ((slot-inside t id k p).0, c, ap K.key (sym c) ∙ m ∙ ap some d)
  ]

  pub look-Stands : (t : List A) (id : ℕ) (e : A) → look K t id ≡ some e → (k : ℕ) × Stands t id k e
  unfolding look
  look-Stands t id e q = elim (Option-cases (slot K t id)) [
    | inl n ↦ let q' : none ≡ some e = rw n at q in none_some e q'
    | inr (k, p) ↦
        let q' : entry_in K t (some k) ≡ some e = rw p at q in (k, look-slot t id e k p q')
  ]

  -- An entry is stored under its key.
  module _ (t : List A) (id k : ℕ) (e : A) (at_k : slot K t id ≡ some k)
      (mine : K.key e ≡ some id) where
    k_inside : k < length t
    k_inside = (slot-inside t id k at_k).0

    stop_mine : (id' : ℕ) → K.stop id' e ≡ (id == id')
    stop_mine id' = K.stop_held id' id e mine

    passed_here :
        (id' : ℕ)
        → K.stop id' (get_or t k K.vacant) ≡ false
        → K.stop id' (get_or (set t k e) k K.vacant) ≡ false
    passed_here id' s = elim (Option-cases (K.key (get_or t k K.vacant))) [
      | inl n ↦ true_false (sym (K.stop_free id' (get_or t k K.vacant) n) ∙ s)
      | inr (id'', m) ↦
          let d : id'' ≡ id = slot-held t id id'' k at_k m in
          let b : (id'' == id') ≡ false = sym (K.stop_held id' id'' (get_or t k K.vacant) m) ∙ s in
          let c : K.stop id' e ≡ false = stop_mine id' ∙ subst (λ x. (x == id') ≡ false) d b in
          rw (get_or-set_same t k e K.vacant k_inside, c)
    ]

    passed :
        (id' x : ℕ)
        → K.stop id' (get_or t x K.vacant) ≡ false
        → K.stop id' (get_or (set t k e) x K.vacant) ≡ false
    passed id' x s = elim (Bool-cases (k == x)) [
      | inl b ↦
          let d : k ≡ x = ground arith in
          subst (λ y. K.stop id' (get_or (set t k e) y K.vacant) ≡ false) d
            (passed_here id' (subst (λ y. K.stop id' (get_or t y K.vacant) ≡ false) (sym d) s))
      | inr b ↦ let d : k ≢ x = ground arith in rw (get_or-set_other t k x e K.vacant d, s)
    ]

    slot-kept :
        (id' j : ℕ)
        → K.stop id' (get_or (set t k e) j K.vacant) ≡ true
        → slot K t id' ≡ some j
        → slot K (set t k e) id' ≡ some j
    slot-kept id' j s p =
        let n = length-set t k e in
        rw (
          n,
          probe_for-kept (K.stop id') K.vacant t (set t k e) n (passed id') j s (length t)
              (K.start id' % length t) p,
        )

    slot-set_same : slot K (set t k e) id ≡ some k
    slot-set_same =
        slot-kept id k (rw (get_or-set_same t k e K.vacant k_inside, stop_mine id, ==_refl id)) at_k

    slot-set_other : (id' j : ℕ) → k ≢ j → slot K t id' ≡ some j → slot K (set t k e) id' ≡ some j
    slot-set_other id' j ne p =
        let s = (slot-inside t id' j p).1 in
        slot-kept id' j (rw (get_or-set_other t k j e K.vacant ne, s)) p

    module _ (f : IsFound K t) where
      set-found :
          (id' k' : ℕ)
          → k' < length (set t k e)
          → K.key (get_or (set t k e) k' K.vacant) ≡ some id'
          → slot K (set t k e) id' ≡ some k'
      set-found id' k' l h = elim (Bool-cases (k == k')) [
        | inl b ↦
            let d : k ≡ k' = ground arith in
            let h' : K.key (get_or (set t k e) k K.vacant) ≡ some id' =
              subst (λ y. K.key (get_or (set t k e) y K.vacant) ≡ some id') (sym d) h in
            let h'' : K.key e ≡ some id' = rw (get_or-set_same t k e K.vacant k_inside) at h' in
            let i : id ≡ id' = some-eq (sym mine ∙ h'') in
            subst (λ y. slot K (set t k e) y ≡ some k') i (slot-set_same ∙ ap some d)
        | inr b ↦
            let ne : k ≢ k' = ground arith in
            let h' : K.key (get_or t k' K.vacant) ≡ some id' =
              rw (get_or-set_other t k k' e K.vacant ne) at h in
            let l' : k' < length t = rw (length-set t k e) at l in
            slot-set_other id' k' ne (f.found id' k' l' h')
      ]

      pub set-IsFound : IsFound K (set t k e)
      set-IsFound = record { found = set-found }

      pub look-set_same : look K (set t k e) id ≡ some e
      look-set_same =
          look-here (set t k e) id k e set-IsFound
            (rw (length-set t k e) k_inside, get_or-set_same t k e K.vacant k_inside, mine)

      -- What stands under another key stands there before and after.
      other_slot : (id' j : ℕ) (e' : A) → id ≢ id' → Stands (set t k e) id' j e' → k ≢ j
      other_slot id' j e' ne (l, p, h) d =
          let p' : get_or (set t k e) k K.vacant ≡ e' =
            subst (λ y. get_or (set t k e) y K.vacant ≡ e') (sym d) p in
          let q : e ≡ e' = rw (get_or-set_same t k e K.vacant k_inside) at p' in
          ne (some-eq (sym mine ∙ ap K.key q ∙ h))

      Stands-before :
          (id' j : ℕ) (e' : A) → id ≢ id' → Stands (set t k e) id' j e' → Stands t id' j e'
      Stands-before id' j e' ne (l, p, h) =
          let d = other_slot id' j e' ne (l, p, h) in
          let l' : j < length t = rw (length-set t k e) at l in
          let p' : get_or t j K.vacant ≡ e' = rw (get_or-set_other t k j e K.vacant d) at p in
          (l', p', h)

      Stands-after :
          (id' j : ℕ) (e' : A) → id ≢ id' → Stands t id' j e' → Stands (set t k e) id' j e'
      Stands-after id' j e' ne (l, p, h) =
          let d : k ≢ j = λ d.
            let h' : K.key (get_or t k K.vacant) ≡ some id' =
              subst (λ y. K.key (get_or t y K.vacant) ≡ some id') (sym d) (ap K.key p ∙ h) in
            ne (sym (slot-held t id id' k at_k h')) in
          (rw (length-set t k e) l, rw (get_or-set_other t k j e K.vacant d, p), h)

      pub look-set_other : (id' : ℕ) → id ≢ id' → look K (set t k e) id' ≡ look K t id'
      look-set_other id' ne = elim (Option-cases (look K t id')) [
        | inr (e', q) ↦
            let (j, s) = look-Stands t id' e' q in
            look-here (set t k e) id' j e' set-IsFound (Stands-after id' j e' ne s) ∙ sym q
        | inl n ↦ elim (Option-cases (look K (set t k e) id')) [
          | inl n' ↦ n' ∙ sym n
          | inr (e', q) ↦
              let (j, s) = look-Stands (set t k e) id' e' q in
              none_some e' (sym n ∙ look-here t id' j e' f (Stands-before id' j e' ne s))
        ]
      ]
