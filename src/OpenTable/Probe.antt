-- ===== src/OpenTable/Probe.antt =====
-- Where a probe ends, and which changes of the table it does not see.
use aegisdb.Prelude.{
  ℕ, zero, suc, ◌+◌, ◌%◌, ◌≤◌, ◌<◌, ◌≡◌, ◌≢◌, sym, ◌∙◌, subst, ◌⊎◌, inl, inr, Bool, true, false,
  Bool-cases, some, none_some, List, ltb, length, get_or, arith,
}
use native.Mathlib.Nat.{mod-eq_of_lt, mod_self}
use aegisdb.OpenTable.{probe_for}

pub some-eq : {j k : ℕ} → some j ≡ some k → j ≡ k
some-eq e = cc

pub true_false {ℓ} : {A : Type ℓ} → true ≡ false → A
true_false e = cc

pub next-cases :
    (n i : ℕ) → i < n → ((suc i < n) × ((i + 1) % n ≡ suc i)) ⊎ ((suc i ≡ n) × ((i + 1) % n ≡ 0))
next-cases n i h = elim (Bool-cases (ltb (suc i) n)) [
  | inl t ↦
      let l : i + 1 < n = ground arith in
      let w : (i + 1) % n ≡ i + 1 = mod-eq_of_lt l in inl (omega (arith, l), omega (arith, w))
  | inr f ↦
      let e : i + 1 ≡ n = ground arith in
      inr (omega (arith, e), subst (λ m. m % n ≡ 0) (sym e) (mod_self n))
]

pub next-inside : (n i : ℕ) → i < n → (i + 1) % n < n
next-inside n i h = elim (next-cases n i h) [
  | inl (l, e) ↦ omega (arith, l, e)
  | inr (l, e) ↦ omega (arith, l, e)
]

module _ {A : Type 0} (stop : A → Bool) (vacant : A) where
  module _ (t : List A) where
    pub probe_for-inside :
        (n i k : ℕ)
        → i < length t
        → probe_for stop vacant t n i ≡ some k
        → (k < length t) × (stop (get_or t k vacant) ≡ true)
    unfolding probe_for
    probe_for-inside zero i k h e = none_some k e
    probe_for-inside (suc n) i k h e = elim (Bool-cases (stop (get_or t i vacant))) [
      | inl s ↦
          let e' : some i ≡ some k = rw s at e in
          let p = some-eq e' in (omega (arith, h, p), rw (sym p, s))
      | inr s ↦
          let e' : probe_for stop vacant t n ((i + 1) % length t) ≡ some k = rw s at e in
          probe_for-inside n ((i + 1) % length t) k (next-inside (length t) i h) e'
    ]

    -- The slot k lies within the next n ones, around the end.
    abbrev IsAhead : ℕ → ℕ → ℕ → Type 0
    IsAhead n i k = ((i ≤ k) × (k < i + n)) ⊎ ((k < i) × (k + length t < i + n))

    IsAhead-next :
        (n i k : ℕ)
        → i < length t
        → k < length t
        → i ≢ k
        → IsAhead (suc n) i k
        → IsAhead n ((i + 1) % length t) k
    IsAhead-next n i k hi hk ne a = elim (next-cases (length t) i hi) [
      | inl (l, e) ↦
          subst (λ m. IsAhead n m k) (sym e)
            (elim a [
              | inl (b, c) ↦ inl (omega (arith, b, c, ne), omega (arith, c))
              | inr (b, c) ↦ inr (omega (arith, b), omega (arith, c))
            ])
      | inr (l, e) ↦
          subst (λ m. IsAhead n m k) (sym e)
            (elim a [
              | inl (b, c) ↦ absurd (ne (omega (arith, b, l, hk)))
              | inr (b, c) ↦ inl (omega arith, omega (arith, c, l))
            ])
    ]

    not_ahead : (i k : ℕ) {B : Type 0} → IsAhead 0 i k → i < length t → B
    not_ahead i k (inl (b, c)) h = absurd (omega (arith, b, c))
    not_ahead i k (inr (b, c)) h = absurd (omega (arith, b, c))

    -- A probe that passes a slot to stop at ends.
    pub probe_for-ends :
        (n i k : ℕ)
        → i < length t
        → k < length t
        → stop (get_or t k vacant) ≡ true
        → IsAhead n i k
        → (j : ℕ) × (probe_for stop vacant t n i ≡ some j)
    unfolding probe_for
    probe_for-ends zero i k hi hk s a = not_ahead i k a hi
    probe_for-ends (suc n) i k hi hk s a = elim (Bool-cases (stop (get_or t i vacant))) [
      | inl s' ↦ (i, rw s')
      | inr s' ↦
          let ne : i ≢ k =
            λ e. true_false (sym s ∙ subst (λ x. stop (get_or t x vacant) ≡ false) e s') in
          let (j, e) =
            probe_for-ends n ((i + 1) % length t) k (next-inside (length t) i hi) hk s
              (IsAhead-next n i k hi hk ne a) in
          (j, rw (s', e))
    ]

    pub probe_for-total :
        (i k : ℕ)
        → i < length t
        → k < length t
        → stop (get_or t k vacant) ≡ true
        → (j : ℕ) × (probe_for stop vacant t (length t) i ≡ some j)
    probe_for-total i k hi hk s =
        probe_for-ends (length t) i k hi hk s (elim (Bool-cases (ltb k i)) [
          | inl b ↦ inr (ground arith, ground arith)
          | inr b ↦ inl (ground arith, ground arith)
        ])

  -- A probe that ends in slot j ends there too when no slot that it passes begins to stop it.
  pub probe_for-kept :
      (t t' : List A)
      → length t' ≡ length t
      → ((x : ℕ) → stop (get_or t x vacant) ≡ false → stop (get_or t' x vacant) ≡ false)
      → (j : ℕ) → stop (get_or t' j vacant) ≡ true
      → (n i : ℕ) → probe_for stop vacant t n i ≡ some j
      → probe_for stop vacant t' n i ≡ some j
  unfolding probe_for
  probe_for-kept t t' l f j s zero i p = none_some j p
  probe_for-kept t t' l f j s (suc n) i p = elim (Bool-cases (stop (get_or t i vacant))) [
    | inl u ↦ let p' : some i ≡ some j = rw u at p in let e = some-eq p' in rw (e, s)
    | inr u ↦
        let p' : probe_for stop vacant t n ((i + 1) % length t) ≡ some j = rw u at p in
        let r = probe_for-kept t t' l f j s n ((i + 1) % length t) p' in rw (f i u, l, r)
  ]
