-- ===== src/Recovery/Scan.antt =====
-- The scan of src/storage/recovery.c over the frames of a log.
use aegisdb.Prelude.{
  ℕ, ◌≡◌, refl, Option, none, some, List, [], ◌∷◌, ◌++◌, ◌>>=◌, ltb, if◌then◌else◌, length,
}
use aegisdb.Record.{MemoryRecord}
use aegisdb.Record.Decode.{record_decode}
use aegisdb.Log.Recovery.{give_all}
use aegisdb.HashIndex.{HashIndex, Location, put}
use aegisdb.HashIndex.Map.{puts}
use aegisdb.Recovery.{ScanCtx, located, noted, scan_record, scan_cb}

-- The locations of the payloads that decode, by the ids of their records.
abbrev pub if_decoded : ℕ → ℕ → Option MemoryRecord → List (ℕ × Location)
if_decoded offset len none = []
if_decoded offset len (some r) = (r.id, located offset len r) ∷ []

abbrev pub locations : List (ℕ × List ℕ) → List (ℕ × Location)
locations [] = []
locations ((offset, payload) ∷ ps) =
    if_decoded offset (length payload) (record_decode payload) ++ locations ps

-- The largest of the ids, and of a number.
abbrev pub highest : ℕ → List (ℕ × Location) → ℕ
highest m [] = m
highest m ((id, at) ∷ ps) = highest (if ltb m id then id else m) ps

abbrev pub scan_next : ℕ → List ℕ → Option ScanCtx → Option ScanCtx
scan_next offset payload o = o >>= scan_cb offset payload

abbrev scanned : ℕ → List (ℕ × Location) → HashIndex → ScanCtx
scanned m ps h = record { hash = h; max_id = highest m ps }

give_all-none : (ps : List (ℕ × List ℕ)) → give_all scan_next none ps ≡ none
give_all-none [] = refl
give_all-none ((offset, payload) ∷ ps) = give_all-none ps

module _ (ps : List (ℕ × List ℕ)) where
  -- What the scan of the payloads does to a state.
  abbrev put_all : ScanCtx → Option ScanCtx
  put_all sc = puts sc.hash (locations ps) >>= λ h. some (scanned sc.max_id (locations ps) h)

  module _ (done : (sc : ScanCtx) → give_all scan_next (some sc) ps ≡ put_all sc) where
    stored_next :
        (r : MemoryRecord) (sc : ScanCtx) (o : Option HashIndex)
        → give_all scan_next (o >>= λ h. some (noted r sc h)) ps ≡ (
            (o >>= λ h. puts h (locations ps)) >>= λ h.
            some (scanned (if ltb sc.max_id r.id then r.id else sc.max_id) (locations ps) h))
    stored_next r sc none = give_all-none ps
    stored_next r sc (some h) = done (noted r sc h)

    decoded_next :
        (offset len : ℕ) (sc : ScanCtx) (o : Option MemoryRecord)
        → give_all scan_next (scan_record offset len o sc) ps ≡ (
            puts sc.hash (if_decoded offset len o ++ locations ps) >>= λ h.
            some (scanned sc.max_id (if_decoded offset len o ++ locations ps) h))
    unfolding puts
    decoded_next offset len sc none = done sc
    decoded_next offset len sc (some r) = stored_next r sc (put sc.hash r.id (located offset len r))

-- The scan puts the locations into the index, one after the other.
pub give_all-puts :
    (ps : List (ℕ × List ℕ)) (sc : ScanCtx) → give_all scan_next (some sc) ps ≡ put_all ps sc
unfolding puts scan_cb
give_all-puts [] sc = refl
give_all-puts ((offset, payload) ∷ ps) sc =
    decoded_next ps (give_all-puts ps) offset (length payload) sc (record_decode payload)
