-- ===== src/HashIndex/Put.antt =====
-- hash_index_put: the table that it leaves.
use aegisdb.Prelude.{
  ℕ, suc, ◌+◌, ◌*◌, ◌^◌, ◌≤◌, ◌≡◌, ◌≢◌, refl, sym, ap, ◌∙◌, subst, Bool-cases, Option, inl, inr,
  none, some, ◌==◌, ltb, if◌then◌else◌, ◌>>=◌, length, All, All-set, All-replicate, get_or, set,
  replicate, length-set, length-replicate, arith,
}
use mathlib.Core.Path.{fun_ext}
use native.Mathlib.Nat.{pow-suc, pow-le-pow_right}
use aegisdb.OpenTable.{slot, look, held, IsFound}
use aegisdb.OpenTable.Table.{slot-inside, slot-held, look-set_same, look-set_other, set-IsFound}
use aegisdb.OpenTable.Latest.{over, latest, latest-look, found-IsDistinct}
use aegisdb.OpenTable.Count.{
  held-replicate, replicate-IsFound, look-replicate, held_le, held-set, slot-total,
}
use aegisdb.OpenTable.Fill.{fill-All, fill-IsFilled}
use aegisdb.HashIndex.{
  HashEntry, HashIndex, zero_entry, find_slot, rehash, Location, entry_at, store, put,
}
use aegisdb.HashIndex.Keys.{hashed, key_of, lookup, IsHashed, rehash_from-fill}

-- The map with one entry more.
abbrev pub updated : (ℕ → Option HashEntry) → ℕ → HashEntry → ℕ → Option HashEntry
updated m id e id' = if id == id' then some e else m id'

-- The table after rehash.
record IsRehashed (h h' : HashIndex) : Type 1 where
  pub found : IsFound hashed h'.buckets
  pub same_count : h'.count ≡ h.count
  pub same_held : held hashed h'.buckets ≡ held hashed h.buckets
  pub doubled : length h'.buckets ≡ length h.buckets * 2
  pub kept : (P : HashEntry → Type 0) → P zero_entry → All P h.buckets → All P h'.buckets
  pub same_lookup : (id : ℕ) → lookup h' id ≡ lookup h id

over-none : (o : Option HashEntry) → over hashed o none ≡ o
over-none none = refl
over-none (some e) = refl

rehash-IsRehashed :
    (h : HashIndex)
    → IsHashed h
    → (h' : HashIndex) × (rehash h (length h.buckets * 2) ≡ some h') × IsRehashed h h'
unfolding rehash
rehash-IsRehashed h v =
    let n = length h.buckets * 2 in
    let z = held-replicate hashed n in
    let nl = length-replicate n zero_entry in
    let b = held_le hashed h.buckets in
    let fresh = look-replicate hashed n in
    let (nb, p, f) =
      fill-IsFilled hashed (replicate n zero_entry) h.buckets (replicate-IsFound hashed n)
        (omega (arith, z, nl, b)) in
    let c = f.counted (found-IsDistinct hashed h.buckets v.found) (λ id e p. fresh id) in
    (
      record h { buckets = nb },
      rw (rehash_from-fill (replicate n zero_entry) h.buckets, p),
      record {
        found = f.all_found;
        same_count = refl;
        same_held = omega (arith, c, z);
        doubled = f.same_length ∙ nl;
        kept = λ P z a.
            fill-All hashed P (replicate n zero_entry) h.buckets nb p
              (All-replicate P n zero_entry z) a;
        same_lookup = λ id.
            f.looked id
            ∙ ap (over hashed (latest hashed h.buckets id)) (fresh id)
            ∙ over-none (latest hashed h.buckets id)
            ∙ latest-look hashed h.buckets v.found id;
      },
    )

-- One location is stored in the slot where the probe for its id ended.
module _ (h : HashIndex) (f : IsFound hashed h.buckets) (c : h.count ≡ held hashed h.buckets) where
  module _ (id k : ℕ) (at : Location) (at_k : find_slot h.buckets id ≡ some k) where
    slot_k : slot hashed h.buckets id ≡ some k
    unfolding find_slot
    slot_k = at_k

    -- The entry that stands in the slot.
    abbrev before : HashEntry
    before = get_or h.buckets k zero_entry

    id_kept : (if before.used then before.id else id) ≡ id
    id_kept = elim (Bool-cases before.used) [
      | inl u ↦
          let m : key_of before ≡ some before.id = rw u in
          rw (u, slot-held hashed h.buckets id before.id k slot_k m)
      | inr u ↦ rw u
    ]

    store-buckets : (store h id at k).buckets ≡ set h.buckets k (entry_at id at)
    unfolding store
    store-buckets = ap (λ i. set h.buckets k (entry_at i at)) id_kept

    store-IsFound : IsFound hashed (store h id at k).buckets
    store-IsFound =
        subst (IsFound hashed) (sym store-buckets)
          (set-IsFound hashed h.buckets id k (entry_at id at) slot_k refl f)

    store-lookup : lookup (store h id at k) ≡ updated (lookup h) id (entry_at id at)
    store-lookup = fun_ext (λ id'. elim (Bool-cases (id == id')) [
      | inl b ↦
          let d : id ≡ id' = ground arith in
          let q = look-set_same hashed h.buckets id k (entry_at id at) slot_k refl f in
          rw (b, store-buckets)
            (subst (λ i. look hashed (set h.buckets k (entry_at id at)) i ≡ some (entry_at id at)) d
              q)
      | inr b ↦
          let d : id ≢ id' = ground arith in
          rw (b, store-buckets)
            (look-set_other hashed h.buckets id k (entry_at id at) slot_k refl f id' d)
    ])

    store-length : length (store h id at k).buckets ≡ length h.buckets
    store-length = ap length store-buckets ∙ length-set h.buckets k (entry_at id at)

    store-counted : (store h id at k).count ≡ held hashed (store h id at k).buckets
    unfolding store
    store-counted =
        let l = (slot-inside hashed h.buckets id k slot_k).0 in
        let e = held-set hashed h.buckets k (entry_at id at) l in
        rw store-buckets (elim (Bool-cases before.used) [
          | inl u ↦
              let e' : held hashed (set h.buckets k (entry_at id at)) + 1
                  ≡ held hashed h.buckets + 1 =
                rw u at e in
              rw u (omega (arith, e', c))
          | inr u ↦
              let e' : held hashed (set h.buckets k (entry_at id at)) + 0
                  ≡ held hashed h.buckets + 1 =
                rw u at e in
              rw u (omega (arith, e', c))
        ])

    store-count_le : (store h id at k).count ≤ h.count + 1
    unfolding store
    store-count_le = elim (Bool-cases before.used) [
      | inl u ↦ rw u (omega arith)
      | inr u ↦ rw u (omega arith)
    ]

-- The index after a location is put under an id.
pub record IsPut (h : HashIndex) (id : ℕ) (at : Location) (h' : HashIndex) : Type 1 where
  pub hashed_after : IsHashed h'
  pub count_after : h'.count ≤ h.count + 1
  pub kept_after :
      (P : HashEntry → Type 0)
      → P zero_entry
      → P (entry_at id at)
      → All P h.buckets
      → All P h'.buckets
  pub lookup_after : lookup h' ≡ updated (lookup h) id (entry_at id at)

stored :
    (h : HashIndex) (id : ℕ) (at : Location)
    → IsHashed h
    → 10 * (h.count + 1) ≤ 7 * length h.buckets
    → (h' : HashIndex) × ((find_slot h.buckets id >>= λ k. some (store h id at k)) ≡ some h')
      × IsPut h id at h'
unfolding find_slot
stored h id at v l =
    let c = v.counted in
    let (k, p) = slot-total hashed h.buckets id (omega (arith, l, c)) in
    let n = store-length h v.found v.counted id k at p in
    let m = store-count_le h v.found v.counted id k at p in
    let (d, q) = v.capacity in
    (
      store h id at k,
      rw p,
      record {
        hashed_after = record {
          found = store-IsFound h v.found v.counted id k at p;
          counted = store-counted h v.found v.counted id k at p;
          room = omega (arith, l, n, m);
          capacity = (d, n ∙ q);
        };
        count_after = m;
        kept_after = λ P z b a.
            subst (All P) (sym (store-buckets h v.found v.counted id k at p))
              (All-set P h.buckets k (entry_at id at) b a);
        lookup_after = store-lookup h v.found v.counted id k at p;
      },
    )

rehash-IsHashed : (h h' : HashIndex) → IsHashed h → IsRehashed h h' → IsHashed h'
rehash-IsHashed h h' v r =
    let c = v.counted in
    let l = v.room in
    let a = r.same_count in
    let b = r.same_held in
    let d = r.doubled in
    let (m, q) = v.capacity in
    record {
      found = r.found;
      counted = omega (arith, a, b, c);
      room = omega (arith, a, l, d);
      capacity = (suc m, omega (arith, d, q, pow-suc 2 m));
    }

pow_pos : (m : ℕ) → 1 ≤ 2 ^ m
pow_pos m = pow-le-pow_right {n = 2} (omega arith) {i = 0} {j = m} (omega arith)

pub put-IsPut :
    (h : HashIndex) (id : ℕ) (at : Location)
    → IsHashed h
    → (h' : HashIndex) × (put h id at ≡ some h') × IsPut h id at h'
unfolding put
put-IsPut h id at v = elim (Bool-cases (ltb (7 * length h.buckets) (10 * (h.count + 1)))) [
  | inr b ↦ let (h', p, q) = stored h id at v (ground arith) in (h', rw (b, p), q)
  | inl b ↦
      let (g, p, r) = rehash-IsRehashed h v in
      let l : 10 * (g.count + 1) ≤ 7 * length g.buckets =
        let a = r.same_count in
        let d = r.doubled in
        let c = v.room in let (m, e) = v.capacity in omega (arith, a, d, c, e, pow_pos m) in
      let (h', s, q) = stored g id at (rehash-IsHashed h g v r) l in
      (
        h',
        rw (b, p, s),
        record {
          hashed_after = q.hashed_after;
          count_after = let a = r.same_count in let d = q.count_after in omega (arith, a, d);
          kept_after = λ P z b a. q.kept_after P z b (r.kept P z a);
          lookup_after =
              q.lookup_after ∙ ap (λ f. updated f id (entry_at id at)) (fun_ext r.same_lookup);
        },
      )
]
