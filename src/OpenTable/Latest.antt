-- ===== src/OpenTable/Latest.antt =====
-- What a list of entries holds under a key, and that a table in which each entry is found agrees
-- with the list of its slots.
use aegisdb.Prelude.{
  ℕ, zero, suc, ◌≡◌, refl, sym, ap, ◌∙◌, inl, inr, Bool-cases, Option, Option-cases, none, some,
  none_some, List, [], ◌∷◌, if◌then◌else◌, ◌==◌, ==_refl, arith,
}
use aegisdb.OpenTable.{Keyed, look, IsFound}
use aegisdb.OpenTable.Probe.{some-eq}
use aegisdb.OpenTable.Table.{Stands, look-here, look-Stands}

module _ {A : Type 0} (K : Keyed A) where
  -- The last entry of a list under a key.
  abbrev pub over : Option A → Option A → Option A
  over (some e) o = some e
  over none o = o

  pub over-none : (o p : Option A) → over (over o none) p ≡ over o p
  over-none (some e) p = refl
  over-none none p = refl

  pub over_assoc : (o p q : Option A) → over o (over p q) ≡ over (over o p) q
  over_assoc (some e) p q = refl
  over_assoc none p q = refl

  abbrev pub under : ℕ → Option ℕ → A → Option A
  under id none e = none
  under id (some id') e = if id' == id then some e else none

  abbrev pub latest : List A → ℕ → Option A
  latest [] id = none
  latest (e ∷ es) id = over (latest es id) (under id (K.key e) e)

  -- A list in which no two entries have the same key.
  abbrev pub IsDistinct : List A → Type 0
  IsDistinct [] = Unit
  IsDistinct (e ∷ es) = ((id : ℕ) → K.key e ≡ some id → latest es id ≡ none) × IsDistinct es

  -- The entries of a table in which each is found.
  latest-Stands_in :
      (e : A) (es : List A) (id : ℕ) (e' : A)
      → ((d : A) → latest es id ≡ some d → (k : ℕ) × Stands K es id k d)
      → (o : Option A) → latest es id ≡ o
      → (p : Option ℕ) → K.key e ≡ p
      → over o (under id p e) ≡ some e'
      → (k : ℕ) × Stands K (e ∷ es) id k e'
  latest-Stands_in e es id e' f (some d) q p m h =
      let (k, s) = f d q in
      let (l, a, b) = s in
      let c : d ≡ e' = cc in (suc k, (omega (arith, l), a ∙ c, ap K.key (sym c) ∙ b))
  latest-Stands_in e es id e' f none q none m h = none_some e' h
  latest-Stands_in e es id e' f none q (some id') m h = elim (Bool-cases (id' == id)) [
    | inl b ↦
        let d : id' ≡ id = ground arith in
        let h' : some e ≡ some e' = rw b at h in
        let c : e ≡ e' = cc in (0, (omega arith, c, ap K.key (sym c) ∙ m ∙ ap some d))
    | inr b ↦ let h' : none ≡ some e' = rw b at h in none_some e' h'
  ]

  latest-Stands : (t : List A) (id : ℕ) (e : A) → latest t id ≡ some e → (k : ℕ) × Stands K t id k e
  latest-Stands [] id e p = none_some e p
  latest-Stands (x ∷ xs) id e p =
      latest-Stands_in x xs id e (latest-Stands xs id) (latest xs id) refl (K.key x) refl p

  over-some : (o : Option A) (e : A) → (e' : A) × (over o (some e) ≡ some e')
  over-some none e = (e, refl)
  over-some (some d) e = (d, refl)

  Stands-latest :
      (t : List A) (id k : ℕ) (e : A) → Stands K t id k e → (e' : A) × (latest t id ≡ some e')
  Stands-latest [] id k e (l, p, q) = absurd (omega (arith, l))
  Stands-latest (x ∷ xs) id zero e (l, p, q) =
      let q' : K.key x ≡ some id = ap K.key p ∙ q in
      rw (q', ==_refl id) (over-some (latest xs id) x)
  Stands-latest (x ∷ xs) id (suc k) e (l, p, q) =
      let (e', r) = Stands-latest xs id k e (omega (arith, l), p, q) in (e', rw r)

  pub latest-look : (t : List A) → IsFound K t → (id : ℕ) → latest t id ≡ look K t id
  latest-look t f id = elim (Option-cases (latest t id)) [
    | inr (e, p) ↦ let (k, s) = latest-Stands t id e p in p ∙ sym (look-here K t id k e f s)
    | inl n ↦ elim (Option-cases (look K t id)) [
      | inl n' ↦ n ∙ sym n'
      | inr (e, p) ↦
          let (k, s) = look-Stands K t id e p in
          let (e', q) = Stands-latest t id k e s in none_some e' (sym n ∙ q)
    ]
  ]

  IsSingle : List A → Type 0
  IsSingle t = (id i j : ℕ) (d e : A) → Stands K t id i d → Stands K t id j e → i ≡ j

  single-IsDistinct : (t : List A) → IsSingle t → IsDistinct t
  unfolding IsSingle
  single-IsDistinct [] u = tt
  single-IsDistinct (x ∷ xs) u = (
    (λ id p. elim (Option-cases (latest xs id)) [
      | inl n ↦ n
      | inr (e, q) ↦
          let (k, s) = latest-Stands xs id e q in
          let (l, a, b) = s in
          let z : 0 ≡ suc k = u id 0 (suc k) x e (omega arith, refl, p) (omega (arith, l), a, b) in
          absurd (omega (arith, z))
    ]),
    single-IsDistinct xs (λ id i j d e (l, p, q) (l', p', q').
        let h = u id (suc i) (suc j) d e (omega (arith, l), p, q) (omega (arith, l'), p', q') in
        omega (arith, h)),
  )

  pub found-IsDistinct : (t : List A) → IsFound K t → IsDistinct t
  unfolding IsSingle
  found-IsDistinct t f = single-IsDistinct t (λ id i j d e (l, p, q) (l', p', q').
      some-eq (sym (f.found id i l (ap K.key p ∙ q)) ∙ f.found id j l' (ap K.key p' ∙ q')))
