-- ===== src/TimeIndex/Recent.antt =====
-- time_index_range_recent: the newest entries of a range.
use aegisdb.Prelude.{
  ℕ, ◌+◌, ◌-◌, ◌≡◌, ap, ◌∙◌, inl, inr, false, Bool-cases, List, [], ◌∷◌, ltb, ◌==◌, ◌&&◌, not,
  if◌then◌else◌, length, get_or, take, drop, All_mono, arith, drop-drop, take-drop, get_or-drop,
  length-take, length-drop,
}
use aegisdb.Bisect.{Turns, bisect-Turns}
use aegisdb.Bisect.Partition.{IsPartitioned, turn, turn-le-length, get_or_mono, Turns-turn}
use aegisdb.TimeIndex.{TimeEntry, TimeIndex, zero_entry, upper_bound, range_recent}
use aegisdb.TimeIndex.Search.{KeyLe, IsSorted, lower_bound-turn}
use aegisdb.TimeIndex.Contents.{IsValid}
use aegisdb.TimeIndex.Range.{in_range, ids, early, in_time, from_start, in_range-from_start}

-- The last `most` of the entries, where 0 stands for all of them.
abbrev pub newest : ℕ → List TimeEntry → List TimeEntry
newest most es = if most == 0 then es else drop (length es - most) es

module _ (start end : ℕ) where
  in_time-IsPartitioned : (es : List TimeEntry) → IsSorted es → IsPartitioned (in_time start end) es
  in_time-IsPartitioned [] h = tt
  in_time-IsPartitioned (e ∷ es) (b, h) =
      (λ f. All_mono (KeyLe e) _ (later e f) es b, in_time-IsPartitioned es h)
    where
      later :
          (x : TimeEntry)
          → in_time start end x ≡ false
          → (y : TimeEntry) → KeyLe x y
          → in_time start end y ≡ false
      later x f y k = ground arith

  module _ (es : List TimeEntry) (h : IsSorted es) where
    abbrev lo : ℕ
    lo = turn (early start end) es

    upper_bound-Turns :
        Turns
          (λ i. in_time start end (get_or es i zero_entry))
          lo
          (length es)
          (upper_bound es lo end)
    unfolding upper_bound
    upper_bound-Turns =
        bisect-Turns (λ i. in_time start end (get_or es i zero_entry)) (length es)
          (λ i j. get_or_mono (in_time start end) zero_entry es i j (in_time-IsPartitioned es h))
          (length es) lo (length es) (turn-le-length (early start end) es) (omega arith)
          (omega arith)

    -- The span between the two searches counts the entries of the range.
    upper_bound-turn :
        upper_bound es lo end ≡ lo + turn (in_time start end) (from_start start end es)
    upper_bound-turn = omega (arith, span, u.above)
      where
        u :
            Turns
              (λ i. in_time start end (get_or es i zero_entry))
              lo
              (length es)
              (upper_bound es lo end)
        u = upper_bound-Turns

        span : upper_bound es lo end - lo ≡ turn (in_time start end) (from_start start end es)
        span = Turns-turn (in_time start end) zero_entry (from_start start end es) _ (record {
          above = omega arith;
          below = omega (arith, u.below, length-drop lo es);
          before = λ i a b.
              rw (get_or-drop lo i es zero_entry) (u.before (lo + i) (omega arith) (omega arith));
          after = λ i a b.
              rw (get_or-drop lo i es zero_entry)
                (u.after (lo + i) (omega (arith, u.above)) (omega (arith, length-drop lo es)));
        })

    length-in_range :
        length (in_range start end es) ≡ turn (in_time start end) (from_start start end es)
    length-in_range =
        ap (λ (l : List TimeEntry). length l) (in_range-from_start start end es h)
        ∙ omega (
          arith,
          length-take (turn (in_time start end) (from_start start end es))
              (from_start start end es),
          turn-le-length (in_time start end) (from_start start end es),
        )

-- The window that the code cuts out of the array is the end of the range.
newest-window :
    (most m lo : ℕ) (es : List TimeEntry)
    → take
        (if not (most == 0) && ltb most m then most else m)
        (drop (if not (most == 0) && ltb most m then lo + m - most else lo) es)
      ≡ (if most == 0 then take m (drop lo es) else drop (m - most) (take m (drop lo es)))
newest-window most m lo es = elim (Bool-cases (most == 0)) [
  | inl all ↦ rw all
  | inr some ↦ elim (Bool-cases (ltb most m)) [
    | inl cut ↦
        let from : lo + m - most ≡ lo + (m - most) = ground arith in
        let back : m - most + most ≡ m = ground arith in
        rw (
          some,
          cut,
          from,
          drop-drop lo (m - most) es,
          take-drop most (m - most) (drop lo es),
          back,
        )
    | inr fit ↦ let none_over : m - most ≡ 0 = ground arith in rw (some, fit, none_over)
  ]
]

module _ (t : TimeIndex) (start end most : ℕ) (v : IsValid t) where
  -- On a valid index time_index_range_recent gives the ids of the newest entries created in
  -- [start, end], oldest first: at most `most` of them unless `most` is 0. Its flag tells exactly
  -- whether entries were dropped.
  pub range_recent-in_range : range_recent t start end most ≡ (
    ids (newest most (in_range start end t.entries)),
    not (most == 0) && ltb most (length (in_range start end t.entries)),
  )
  unfolding range_recent
  range_recent-in_range =
      let es = t.entries in
      let m = turn (in_time start end) (from_start start end es) in
      let first = lo start end es v.sorted in
      let total : first + m - first ≡ m = omega arith in
      rw
        (
          lower_bound-turn start 0 es v.sorted,
          upper_bound-turn start end es v.sorted,
          total,
          length-in_range start end es v.sorted,
          in_range-from_start start end es v.sorted,
        )
        (ap (λ (l : List TimeEntry). (ids l, not (most == 0) && ltb most m))
          (newest-window most m first es))
