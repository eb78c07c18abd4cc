-- ===== src/Bisect.antt =====
-- The binary search that the sorted indexes share: lower_bound and the second search of
-- src/storage/time_index.c, and id_lower_bound of src/storage/tag_index.c. They differ in the test
-- of the middle element, which is a parameter here.
pub mod Partition
use aegisdb.Prelude.{
  ℕ, zero, suc, ◌+◌, ◌-◌, ◌/◌, ◌≤◌, ◌<◌, ◌≡◌, Bool, Bool-cases, true, false, inl, inr, ltb, ltb→lt,
  if◌then◌else◌, arith,
}

-- `while (lo < hi)` with the rounds left as fuel; `right mid` sends the search to the upper half.
unfoldable pub bisect : (right : ℕ → Bool) (rounds lo hi : ℕ) → ℕ
bisect right zero lo hi = lo
bisect right (suc rounds) lo hi =
    let mid = lo + (hi - lo) / 2 in
    let upper = bisect right rounds (mid + 1) hi in
    let lower = bisect right rounds lo mid in
    if ltb lo hi then (if right mid then upper else lower) else lo

-- `r` is where the test turns from true to false between `lo` and `hi`.
pub record Turns (right : ℕ → Bool) (lo hi r : ℕ) : Type 0 where
  pub above : lo ≤ r
  pub below : r ≤ hi
  pub before : (i : ℕ) → lo ≤ i → i < r → right i ≡ true
  pub after : (i : ℕ) → r ≤ i → i < hi → right i ≡ false

ended : (right : ℕ → Bool) (lo hi : ℕ) → lo ≤ hi → hi ≤ lo → Turns right lo hi lo
ended right lo hi h k = record {
  above = omega arith;
  below = h;
  before = λ i a b. absurd (omega arith);
  after = λ i a b. absurd (omega arith);
}

module _ (right : ℕ → Bool) (n : ℕ)
    (mono : (i j : ℕ) → i ≤ j → j < n → right j ≡ true → right i ≡ true) where
  falls : (i j : ℕ) → i ≤ j → j < n → right i ≡ false → right j ≡ false
  falls i j h lt e = ground (arith, mono i j h lt)

  -- With as many rounds as cells, and a test that never turns back, the search finds the turn.
  pub bisect-Turns :
      (rounds lo hi : ℕ)
      → lo ≤ hi
      → hi ≤ n
      → hi - lo ≤ rounds
      → Turns right lo hi (bisect right rounds lo hi)
  unfolding bisect
  bisect-Turns zero lo hi h k f = ended right lo hi h (omega arith)
  bisect-Turns (suc rounds) lo hi h k f = elim (Bool-cases (ltb lo hi)) [
    | inr stop ↦ rw stop (ended right lo hi h (ground arith))
    | inl go ↦
        let lt = ltb→lt lo hi go in
        let mid : ℕ = lo + (hi - lo) / 2 in
        elim (Bool-cases (right mid)) [
          | inl up ↦
              let t = bisect-Turns rounds (mid + 1) hi (omega arith) k (omega arith) in
              rw (go, up)
                (record {
                  above = omega (arith, t.above);
                  below = t.below;
                  before = λ i a b. grind (arith, t.before, mono i mid);
                  after = t.after;
                })
          | inr down ↦
              let t = bisect-Turns rounds lo mid (omega arith) (omega arith) (omega arith) in
              rw (go, down)
                (record {
                  above = t.above;
                  below = omega (arith, t.below);
                  before = t.before;
                  after = λ i a b. grind (arith, t.after, falls mid i);
                })
        ]
  ]
