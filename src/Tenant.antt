-- ===== src/Tenant.antt =====
-- src/util/tenant.c: what each namespace uses. The table is its array up to `n`; allocation succeeds
-- and the lock is left out, and so is the token bucket, whose numbers are doubles. A `long` is an
-- integer of the library's form over the native numbers; its sums stay within 64 bits.
pub mod Quota
use aegisdb.Prelude.{
  ℕ, zero, suc, ◌+◌, ◌-◌, ◌%◌, ◌^◌, Bool, true, false, Option, none, some, List, [], ◌∷◌, ◌&&◌,
  ◌||◌, not, ltb, ◌==◌, if◌then◌else◌,
}
use aegisdb.CStrings.{is_same}

pub data ℤ : Type 0 where
  pos : ℕ → ℤ
  negsuc : ℕ → ℤ

-- `a - b` of two numbers
abbrev pub diff : ℕ → ℕ → ℤ
diff a b = if ltb a b then negsuc (b - a - 1) else pos (a - b)

-- `d > 0 ? d : 0`
abbrev pub positive_part : ℤ → ℕ
positive_part (pos d) = d
positive_part (negsuc d) = 0

abbrev pub is_zero : ℤ → Bool
is_zero (pos d) = d == 0
is_zero (negsuc d) = false

pub record Tenant : Type 0 where
  pub ns : List ℕ
  pub records : ℕ
  pub bytes : ℕ

abbrev pub new_tenant : List ℕ → Tenant
new_tenant ns = record { ns = ns; records = 0; bytes = 0 }

unfoldable pub find : List Tenant → List ℕ → Option Tenant
find [] ns = none
find (t ∷ ts) ns = if is_same t.ns ns then some t else find ts ns

-- One of the two sums of tenant_usage_adjust, which saturates at 0.
abbrev pub adjusted : ℕ → ℤ → ℕ
adjusted e (pos d) = (e + d) % 2 ^ 64
adjusted e (negsuc d) = if ltb e (d + 1) then 0 else e - (d + 1)

abbrev pub adjust_one : ℤ → ℤ → Tenant → Tenant
adjust_one d_records d_bytes e = record e {
  records = adjusted e.records d_records;
  bytes = adjusted e.bytes d_bytes;
}

-- The entry that find_or_add finds, or adds at the end, is adjusted.
unfoldable pub tenant_usage_adjust : List Tenant → List ℕ → ℤ → ℤ → List Tenant
tenant_usage_adjust [] ns d_records d_bytes = adjust_one d_records d_bytes (new_tenant ns) ∷ []
tenant_usage_adjust (t ∷ ts) ns d_records d_bytes =
    let rest = tenant_usage_adjust ts ns d_records d_bytes in
    if is_same t.ns ns then adjust_one d_records d_bytes t ∷ ts else t ∷ rest

abbrev pub records_of : Option Tenant → ℕ
records_of none = 0
records_of (some e) = e.records

abbrev pub bytes_of : Option Tenant → ℕ
bytes_of none = 0
bytes_of (some e) = e.bytes

-- One of the two tests of tenant_usage_would_exceed; 0 is no limit.
abbrev pub is_above : ℕ → ℕ → ℕ → Bool
is_above used add limit = not (limit == 0) && (ltb 0 add && ltb limit ((used + add) % 2 ^ 64))

unfoldable pub tenant_usage_would_exceed :
    List Tenant → List ℕ → (add_records add_bytes max_records max_bytes : ℕ) → Bool
tenant_usage_would_exceed ts ns add_records add_bytes max_records max_bytes =
    is_above (records_of (find ts ns)) add_records max_records
    || is_above (bytes_of (find ts ns)) add_bytes max_bytes
