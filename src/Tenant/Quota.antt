-- ===== src/Tenant/Quota.antt =====
-- What tenant_usage_adjust of src/util/tenant.c does to the usage of each namespace.
use aegisdb.Prelude.{
  ℕ, ◌≤◌, ◌<◌, ◌≡◌, refl, Bool, true, false, Bool-cases, inl, inr, List, [], ◌∷◌, ◌||◌, arith,
}
use aegisdb.CStrings.{is_same, is_same_refl, other_string}
use aegisdb.Tenant.{
  ℤ, pos, negsuc, positive_part, Tenant, find, adjusted, tenant_usage_adjust, records_of, bytes_of,
  is_above, tenant_usage_would_exceed,
}

-- The namespace's entry is adjusted, and no other.
pub find-tenant_usage_adjust :
    (ts : List Tenant) (ns : List ℕ) (d e : ℤ)
    → ((records_of (find (tenant_usage_adjust ts ns d e) ns))
        ≡ adjusted (records_of (find ts ns)) d)
      × ((bytes_of (find (tenant_usage_adjust ts ns d e) ns)) ≡ adjusted (bytes_of (find ts ns)) e)
unfolding find tenant_usage_adjust
find-tenant_usage_adjust [] ns d e = let s = is_same_refl ns in (rw s, rw s)
find-tenant_usage_adjust (t ∷ ts) ns d e = elim (Bool-cases (is_same t.ns ns)) [
  | inl s ↦ (rw (s, s), rw (s, s))
  | inr s ↦ let (p, q) = find-tenant_usage_adjust ts ns d e in (rw (s, s, p), rw (s, s, q))
]

pub find_other-tenant_usage_adjust :
    (ts : List Tenant) (ns ns' : List ℕ) (d e : ℤ)
    → is_same ns ns' ≡ false
    → find (tenant_usage_adjust ts ns d e) ns' ≡ find ts ns'
unfolding find tenant_usage_adjust
find_other-tenant_usage_adjust [] ns ns' d e n = rw n
find_other-tenant_usage_adjust (t ∷ ts) ns ns' d e n = elim (Bool-cases (is_same t.ns ns)) [
  | inl s ↦ let o : is_same t.ns ns' ≡ false = other_string t.ns ns ns' s n in rw (s, o)
  | inr s ↦
      let r = find_other-tenant_usage_adjust ts ns ns' d e n in
      elim (Bool-cases (is_same t.ns ns')) [ inl o ↦ rw (s, o) | inr o ↦ rw (s, o, r) ]
]

-- What is_above lets through stays within the limit.
adjusted-limit :
    (used limit : ℕ) (d : ℤ)
    → is_above used (positive_part d) limit ≡ false
    → 0 < limit
    → 0 < positive_part d
    → adjusted used d ≤ limit
adjusted-limit used limit (pos d) h l p = ground arith
adjusted-limit used limit (negsuc d) h l p = absurd (omega (arith, p))

or_false : (a b : Bool) → (a || b) ≡ false → (a ≡ false) × (b ≡ false)
or_false true b h = (h, cc)
or_false false b h = (refl, h)

-- Where the quota test lets a write through that makes the usage of a namespace grow, the usage of
-- records and of bytes after tenant_usage_adjust is within its limit.
pub adjust-within_quota :
    (ts : List Tenant) (ns : List ℕ) (d e : ℤ) (max_records max_bytes : ℕ)
    → tenant_usage_would_exceed ts ns (positive_part d) (positive_part e) max_records max_bytes
      ≡ false
    → (0 < max_records
        → 0 < positive_part d
        → records_of (find (tenant_usage_adjust ts ns d e) ns) ≤ max_records)
      × (0 < max_bytes
          → 0 < positive_part e
          → bytes_of (find (tenant_usage_adjust ts ns d e) ns) ≤ max_bytes)
unfolding tenant_usage_would_exceed
adjust-within_quota ts ns d e max_records max_bytes h =
    let (p, q) = find-tenant_usage_adjust ts ns d e in
    let (a, b) =
      or_false (is_above (records_of (find ts ns)) (positive_part d) max_records)
        (is_above (bytes_of (find ts ns)) (positive_part e) max_bytes) h in
    (
      λ l g. rw p (adjusted-limit (records_of (find ts ns)) max_records d a l g),
      λ l g. rw q (adjusted-limit (bytes_of (find ts ns)) max_bytes e b l g),
    )
