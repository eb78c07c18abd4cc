-- ===== src/OpenTable/Fill.antt =====
-- A table filled with the entries of a list, one after the other.
use aegisdb.Prelude.{
  ℕ, ◌+◌, ◌≤◌, ◌≡◌, ◌≢◌, refl, sym, ap, ◌∙◌, subst, inl, inr, Bool-cases, Option, Option-cases,
  ◌>>=◌, none, some, none_some, List, [], ◌∷◌, ◌==◌, ==_refl, length, All, All-set, length-set,
  get_or, set, arith,
}
use aegisdb.OpenTable.{Keyed, slot, look, held, one_if, IsFound}
use aegisdb.OpenTable.Table.{slot-inside, set-IsFound, look-set_same, look-set_other}
use aegisdb.OpenTable.Latest.{over, over-none, over_assoc, under, latest, IsDistinct}
use aegisdb.OpenTable.Count.{held-set, slot-total}

module _ {A : Type 0} (K : Keyed A) where
  -- The entries of a list stored one after the other.
  abbrev pub fill_one : List A → Option ℕ → A → Option (List A)
  fill_one ns none e = some ns
  fill_one ns (some id) e = slot K ns id >>= λ k. some (set ns k e)

  unfoldable pub fill : List A → List A → Option (List A)
  fill ns [] = some ns
  fill ns (e ∷ es) = fill_one ns (K.key e) e >>= λ ns'. fill ns' es

  -- What a table holds after the entries of a list are stored in it.
  pub record IsFilled (ns es r : List A) : Type 0 where
    pub all_found : IsFound K r
    pub same_length : length r ≡ length ns
    pub looked : (id : ℕ) → look K r id ≡ over K (latest K es id) (look K ns id)
    pub counted :
        IsDistinct K es
        → ((id : ℕ) (e : A) → latest K es id ≡ some e → look K ns id ≡ none)
        → held K r ≡ held K ns + held K es

  -- One entry is stored.
  module _ (ns : List A) (id : ℕ) (e : A) (mine : K.key e ≡ some id) (f : IsFound K ns) where
    abbrev stored : ℕ → List A
    stored k = set ns k e

    stored-look :
        (k : ℕ)
        → slot K ns id ≡ some k
        → (id' : ℕ) → look K (stored k) id' ≡ over K (under K id' (K.key e) e) (look K ns id')
    stored-look k p id' = elim (Bool-cases (id == id')) [
      | inl b ↦
          let d : id ≡ id' = ground arith in
          let q = look-set_same K ns id k e p mine f in
          rw (mine, b, subst (λ y. look K (stored k) y ≡ some e) d q)
      | inr b ↦
          let d : id ≢ id' = ground arith in rw (mine, b, look-set_other K ns id k e p mine f id' d)
    ]

    vacant_there :
        (k : ℕ) → slot K ns id ≡ some k → look K ns id ≡ none → K.key (get_or ns k K.vacant) ≡ none
    unfolding look
    vacant_there k p n = elim (Option-cases (K.key (get_or ns k K.vacant))) [
      | inl v ↦ v
      | inr (id', v) ↦
          let n' : some (get_or ns k K.vacant) ≡ none = rw (p, v) at n in
          none_some (get_or ns k K.vacant) (sym n')
    ]

    stored-held :
        (k : ℕ) → slot K ns id ≡ some k → look K ns id ≡ none → held K (stored k) ≡ held K ns + 1
    stored-held k p n =
        let (l, s) = slot-inside K ns id k p in
        let h = held-set K ns k e l in
        let v : K.key (get_or ns k K.vacant) ≡ none = vacant_there k p n in
        let h' : held K (stored k) + 0 ≡ held K ns + 1 = rw (mine, v) at h in omega (arith, h')

    stored-held_le : (k : ℕ) → slot K ns id ≡ some k → held K (stored k) ≤ held K ns + 1
    stored-held_le k p =
        let h = held-set K ns k e ((slot-inside K ns id k p).0) in
        let h' : held K (stored k) + one_if K (K.key (get_or ns k K.vacant)) ≡ held K ns + 1 =
          rw mine at h in
        omega (arith, h')

    module _ (k : ℕ) (at_k : slot K ns id ≡ some k) (es r : List A)
        (done : IsFilled (stored k) es r) where
      stored-looked :
          (id' : ℕ)
          → look K r id'
            ≡ over K (over K (latest K es id') (under K id' (K.key e) e)) (look K ns id')
      stored-looked id' =
          done.looked id'
          ∙ ap (over K (latest K es id')) (stored-look k at_k id')
          ∙ over_assoc K (latest K es id') (under K id' (K.key e) e) (look K ns id')

      module _ (distinct : IsDistinct K (e ∷ es))
          (fresh : (id' : ℕ) (e' : A)
            → latest K (e ∷ es) id' ≡ some e'
            → look K ns id' ≡ none) where
        none_later : latest K es id ≡ none
        none_later = distinct.0 id mine

        fresh_id : look K ns id ≡ none
        fresh_id = fresh id e (rw (none_later, mine, ==_refl id))

        fresh_after : (id' : ℕ) (e' : A) → latest K es id' ≡ some e' → look K (stored k) id' ≡ none
        fresh_after id' e' p =
            let d : id ≢ id' =
              λ d. none_some e' (sym none_later ∙ subst (λ y. latest K es y ≡ some e') (sym d) p) in
            let q : look K ns id' ≡ none = fresh id' e' (rw p) in
            look-set_other K ns id k e at_k mine f id' d ∙ q

        stored-counted : held K r ≡ held K ns + held K (e ∷ es)
        stored-counted =
            let c = done.counted (distinct.1) fresh_after in
            let h = stored-held k at_k fresh_id in rw mine (omega (arith, c, h))

      stored-IsFilled : IsFilled ns (e ∷ es) r
      stored-IsFilled = record {
        all_found = done.all_found;
        same_length = done.same_length ∙ length-set ns k e;
        looked = stored-looked;
        counted = stored-counted;
      }

  skip-IsFilled :
      (ns : List A) (e : A) (es r : List A)
      → K.key e ≡ none
      → IsFilled ns es r
      → IsFilled ns (e ∷ es) r
  skip-IsFilled ns e es r n done = record {
    all_found = done.all_found;
    same_length = done.same_length;
    looked = λ id. rw (n, over-none K (latest K es id) (look K ns id)) (done.looked id);
    counted = λ distinct fresh.
        let c = done.counted (distinct.1) (λ id e' p. fresh id e' (rw p)) in
        rw n (omega (arith, c));
  }

  fill_one-IsFilled :
      (ns : List A) (e : A) (es : List A) (o : Option ℕ)
      → K.key e ≡ o
      → IsFound K ns
      → held K ns + (one_if K o + held K es) ≤ length ns
      → ((ns' : List A)
          → IsFound K ns'
          → held K ns' + held K es ≤ length ns'
          → (r : List A) × (fill ns' es ≡ some r) × IsFilled ns' es r)
      → (r : List A) × ((fill_one ns o e >>= λ ns'. fill ns' es) ≡ some r) × IsFilled ns (e ∷ es) r
  fill_one-IsFilled ns e es none p f h more =
      let (r, q, done) = more ns f (omega (arith, h)) in (r, q, skip-IsFilled ns e es r p done)
  fill_one-IsFilled ns e es (some id) p f h more =
      let (k, s) = slot-total K ns id (omega (arith, h)) in
      let g = stored-held_le ns id e p f k s in
      let n = length-set ns k e in
      let (r, q, done) =
        more (set ns k e) (set-IsFound K ns id k e s p f) (omega (arith, h, g, n)) in
      (r, rw s q, stored-IsFilled ns id e p f k s es r done)

  pub fill-IsFilled :
      (ns es : List A)
      → IsFound K ns
      → held K ns + held K es ≤ length ns
      → (r : List A) × (fill ns es ≡ some r) × IsFilled ns es r
  unfolding fill
  fill-IsFilled ns [] f h = (
    ns,
    refl,
    record { all_found = f; same_length = refl; looked = λ id. refl; counted = λ d g. omega arith },
  )
  fill-IsFilled ns (e ∷ es) f h =
      fill_one-IsFilled ns e es (K.key e) refl f h (λ ns' f' h'. fill-IsFilled ns' es f' h')

  some-same : {r r' : List A} → some r ≡ some r' → r ≡ r'
  some-same p = cc

  fill_at-All :
      (P : A → Type 0) (ns : List A) (e : A) (es r : List A) (o : Option ℕ)
      → ((ns' : List A) → fill ns' es ≡ some r → All P ns' → All P r)
      → ((o >>= λ k. some (set ns k e)) >>= λ ns'. fill ns' es) ≡ some r
      → All P ns
      → P e
      → All P r
  fill_at-All P ns e es r none f p a b = none_some r p
  fill_at-All P ns e es r (some k) f p a b = f (set ns k e) p (All-set P ns k e b a)

  fill_one-All :
      (P : A → Type 0) (ns : List A) (e : A) (es r : List A) (o : Option ℕ)
      → ((ns' : List A) → fill ns' es ≡ some r → All P ns' → All P r)
      → (fill_one ns o e >>= λ ns'. fill ns' es) ≡ some r
      → All P ns
      → P e
      → All P r
  fill_one-All P ns e es r none f p a b = f ns p a
  fill_one-All P ns e es r (some id) f p a b = fill_at-All P ns e es r (slot K ns id) f p a b

  -- What holds of every entry before holds after.
  pub fill-All :
      (P : A → Type 0) (ns es r : List A) → fill ns es ≡ some r → All P ns → All P es → All P r
  unfolding fill
  fill-All P ns [] r p a b = subst (All P) (some-same p) a
  fill-All P ns (e ∷ es) r p a (b, c) =
      fill_one-All P ns e es r (K.key e) (λ ns' p' a'. fill-All P ns' es r p' a' c) p a b
