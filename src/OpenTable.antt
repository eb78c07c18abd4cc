-- ===== src/OpenTable.antt =====
-- Open addressing as the tables of src/storage share it: a slot is free or has a key, and a probe
-- starts at a key's place and goes on from slot to slot, around the end of the array, to the first
-- at which it stops. The fuel is one round for each slot.
pub mod Probe
pub mod Table
pub mod Latest
pub mod Count
pub mod Fill
use aegisdb.Prelude.{
  ℕ, zero, suc, ◌+◌, ◌%◌, ◌≤◌, ◌<◌, ◌≡◌, ◌⊎◌, Bool, true, false, Option, none, some, List, [], ◌∷◌,
  ◌==◌, if◌then◌else◌, length, get_or,
}

-- The first slot from i on at which the probe stops.
unfoldable pub probe_for {ℓ} : {A : Type ℓ} → (A → Bool) → A → List A → (rounds i : ℕ) → Option ℕ
probe_for stop vacant t zero i = none
probe_for stop vacant t (suc rounds) i =
    let onward = probe_for stop vacant t rounds ((i + 1) % length t) in
    if stop (get_or t i vacant) then some i else onward

-- How a table reads its slots: the key of a slot, if it has one, and where a probe for a key stops.
pub record Keyed (A : Type 0) : Type 0 where
  pub vacant : A
  pub key : A → Option ℕ
  pub stop : ℕ → A → Bool
  pub start : ℕ → ℕ
  pub vacant_free : key vacant ≡ none
  pub stop_free : (id : ℕ) (e : A) → key e ≡ none → stop id e ≡ true
  pub stop_held : (id id' : ℕ) (e : A) → key e ≡ some id' → stop id e ≡ (id' == id)

module _ {A : Type 0} (K : Keyed A) where
  abbrev pub slot : List A → ℕ → Option ℕ
  slot t id = probe_for (K.stop id) K.vacant t (length t) (K.start id % length t)

  -- The entry that is stored under the key.
  abbrev pub entry_if : Option ℕ → A → Option A
  entry_if none e = none
  entry_if (some id) e = some e

  abbrev pub entry_in : List A → Option ℕ → Option A
  entry_in t none = none
  entry_in t (some k) = entry_if (K.key (get_or t k K.vacant)) (get_or t k K.vacant)

  unfoldable pub look : List A → ℕ → Option A
  look t id = entry_in t (slot t id)

  -- How many slots have a key.
  abbrev pub one_if : Option ℕ → ℕ
  one_if none = 0
  one_if (some id) = 1

  abbrev pub held : List A → ℕ
  held [] = 0
  held (e ∷ es) = one_if (K.key e) + held es

  -- Every key is found where it stands, so that it stands in one slot.
  pub record IsFound (t : List A) : Type 0 where
    pub found :
        (id k : ℕ) → k < length t → K.key (get_or t k K.vacant) ≡ some id → slot t id ≡ some k
