-- ===== src/Tests/Indexes.antt =====
-- A hash index with an entry, its checkpoint, and a tenant near its quota.
use aegisdb.Prelude.{ℕ, ◌≤◌, ◌<◌, ◌≡◌, refl, none, some, List, [], ◌∷◌, arith}
use aegisdb.CStrings.{is_same}
use aegisdb.HashIndex.{HashIndex, Location, create, put, entry_at}
use aegisdb.HashIndex.Keys.{lookup, IsHashed}
use aegisdb.HashIndex.Put.{updated}
use aegisdb.HashIndex.Map.{create-IsHashed, puts, updates, put-updated, put-IsHashed}
use aegisdb.HashIndex.Entries.{IsNarrow}
use aegisdb.HashIndex.File.{hash_index_save, hash_index_load, reload}
use aegisdb.Tenant.{
  pos, Tenant, find, records_of, bytes_of, tenant_usage_adjust, tenant_usage_would_exceed,
}
use aegisdb.Tenant.Quota.{adjust-within_quota}
use aegisdb.Tests.Logs.{clear_text, clear_text-IsAead, nonce}

abbrev pub spot : Location
spot = record { offset = 0; length = 40; kind = 1; deleted = 0; expires_at = 0 }

abbrev later : Location
later = record { offset = 56; length = 40; kind = 1; deleted = 1; expires_at = 0 }

put-updated_example :
    (h : HashIndex) × (put create 7 spot ≡ some h)
    × (lookup h ≡ updated (lookup create) 7 (entry_at 7 spot))
put-updated_example = put-updated create 7 spot create-IsHashed.0

put-IsHashed_example : (h : HashIndex) × (put create 7 spot ≡ some h) × IsHashed h
put-IsHashed_example = put-IsHashed create 7 spot create-IsHashed.0

abbrev two_puts : List (ℕ × Location)
two_puts = (7, spot) ∷ (7, later) ∷ []

IsNarrow-spot : IsNarrow (entry_at 7 spot)
IsNarrow-spot = record {
  id_fits = omega arith;
  offset_fits = omega arith;
  expires_at_fits = omega arith;
  length_fits = omega arith;
  kind_fits = omega arith;
  deleted_fits = omega arith;
}

IsNarrow-later : IsNarrow (entry_at 7 later)
IsNarrow-later = record {
  id_fits = omega arith;
  offset_fits = omega arith;
  expires_at_fits = omega arith;
  length_fits = omega arith;
  kind_fits = omega arith;
  deleted_fits = omega arith;
}

reload_example :
    (h h' : HashIndex) × (file : List ℕ) × (puts create two_puts ≡ some h)
    × (hash_index_save clear_text (some []) (some nonce) h 112 8 ≡ some file)
    × (hash_index_load clear_text (some []) create (some file) ≡ some (h', 112, 8))
    × (lookup h' ≡ updates (λ id. none) two_puts)
reload_example =
    reload clear_text clear_text-IsAead (some []) nonce two_puts 112 8 refl
      (IsNarrow-spot, (IsNarrow-later, tt)) (omega arith) (omega arith) (omega arith)

abbrev tenant : Tenant
tenant = record { ns = 97 ∷ []; records = 2; bytes = 100 }

adjust-within_quota_example :
    (0 < 3
      → 0 < 1
      → records_of (find (tenant_usage_adjust (tenant ∷ []) (97 ∷ []) (pos 1) (pos 40)) (97 ∷ []))
        ≤ 3)
    × (0 < 150
        → 0 < 40
        → bytes_of (find (tenant_usage_adjust (tenant ∷ []) (97 ∷ []) (pos 1) (pos 40)) (97 ∷ []))
          ≤ 150)
unfolding tenant_usage_would_exceed find is_same
adjust-within_quota_example =
    adjust-within_quota (tenant ∷ []) (97 ∷ []) (pos 1) (pos 40) 3 150 refl
