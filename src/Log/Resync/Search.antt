-- ===== src/Log/Resync/Search.antt =====
-- find_next_frame of src/storage/log.c against a search byte by byte.
use aegisdb.Prelude.{
  ℕ, zero, suc, ◌+◌, ◌-◌, ◌≤◌, ◌<◌, min, ◌≡◌, refl, sym, ap, ◌∙◌, Bool, true, false, Bool-cases,
  Option, Option-cases, none, some, inl, inr, List, [], ◌∷◌, ◌&&◌, ◌==◌, leb, leb→le, if◌then◌else◌,
  length, take, drop, get_or, take-drop, drop-drop, arith,
}
use aegisdb.Bytes.{get_u32le}
use aegisdb.Log.{header_len, parse_header, parse_header_v3}
use aegisdb.Log.Resync.{
  io_buf_size, want_magic, frame_len, is_frame, find_in_window, find_from, find_next_frame,
}
use aegisdb.Log.Frames.{read_full-inside}

-- The first of the next n offsets at which a whole frame with an intact header starts, or `other`.
abbrev pub first_frame : Bool → List ℕ → ℕ → ℕ → ℕ → ℕ → ℕ
first_frame enc bytes end other zero off = other
first_frame enc bytes end other (suc n) off =
    if is_frame enc bytes end off then off else first_frame enc bytes end other n (off + 1)

module _ (enc : Bool) (bytes : List ℕ) (end : ℕ) where
  first_frame-append :
      (n m off other : ℕ)
      → first_frame enc bytes end (first_frame enc bytes end other m (off + n)) n off
        ≡ first_frame enc bytes end other (n + m) off
  first_frame-append zero m off other =
      let o : off + 0 ≡ off = omega arith in let e : 0 + m ≡ m = omega arith in rw (o, e) refl
  first_frame-append (suc n) m off other =
      let e : suc n + m ≡ suc (n + m) = omega arith in
      let o : off + suc n ≡ off + 1 + n = omega arith in
      rw e (
        ap (λ (r : ℕ). if is_frame enc bytes end off then off else r)
          (ap
              (λ (k : ℕ).
                first_frame enc bytes end (first_frame enc bytes end other m k) n (off + 1))
              o
            ∙ first_frame-append n m (off + 1) other))

-- A header has its magic in its first four bytes.
pub magic-frame_len :
    (enc : Bool) (hdr : List ℕ)
    → (get_u32le hdr == want_magic enc) ≡ false
    → frame_len enc hdr ≡ none
unfolding frame_len parse_header parse_header_v3
magic-frame_len true hdr e = rw e refl
magic-frame_len false hdr e = rw e refl

get_or-take : (n i : ℕ) (xs : List ℕ) → i < n → get_or (take n xs) i 0 ≡ get_or xs i 0
get_or-take zero i xs h = absurd (omega arith)
get_or-take (suc n) i [] h = refl
get_or-take (suc n) zero (x ∷ xs) h = refl
get_or-take (suc n) (suc i) (x ∷ xs) h = get_or-take n i xs (omega arith)

pub get_u32le-take : (n : ℕ) (xs : List ℕ) → 4 ≤ n → get_u32le (take n xs) ≡ get_u32le xs
unfolding get_u32le
get_u32le-take n xs h =
    rw
      (
        get_or-take n 0 xs (omega arith),
        get_or-take n 1 xs (omega arith),
        get_or-take n 2 xs (omega arith),
        get_or-take n 3 xs (omega arith),
      )
      refl

pub header_len_min : (enc : Bool) → 4 ≤ header_len enc
header_len_min true = omega arith
header_len_min false = omega arith

pub header_len_max : (enc : Bool) → header_len enc ≤ 36
header_len_max true = omega arith
header_len_max false = omega arith

abbrev or_else : Option ℕ → ℕ → ℕ
or_else none other = other
or_else (some o) other = o

module _ (enc : Bool) (bytes : List ℕ) (end : ℕ) where
  -- The window's test on the magic leaves out no frame.
  is_frame-magic :
      (w off : ℕ)
      → header_len enc ≤ w
      → off + w ≤ length bytes
      → ((get_u32le (take w (drop off bytes)) == want_magic enc) && is_frame enc bytes end off)
        ≡ is_frame enc bytes end off
  unfolding is_frame
  is_frame-magic w off wide inside =
      let at = drop off bytes in
      let four = header_len_min enc in
      elim (Bool-cases (get_u32le at == want_magic enc)) [
        | inl t ↦ rw (get_u32le-take w at (omega (arith, four, wide)), t) refl
        | inr f ↦
            let hdr = take (header_len enc) at in
            let other : (get_u32le hdr == want_magic enc) ≡ false =
              rw (get_u32le-take (header_len enc) at four) f in
            rw
              (
                get_u32le-take w at (omega (arith, four, wide)),
                f,
                is_frame,
                read_full-inside bytes off (header_len enc) (omega (arith, wide, inside)),
                magic-frame_len enc hdr other,
              )
              refl
      ]

  next_window : (w off : ℕ) → drop 1 (take (suc w) (drop off bytes)) ≡ take w (drop (off + 1) bytes)
  next_window w off =
      let e : 1 + w ≡ suc w = omega arith in
      let cut = take-drop w 1 (drop off bytes) in rw (drop-drop off 1 bytes) (sym (rw e at cut))

  find_in_window-first_frame :
      (n w off other : ℕ)
      → n + header_len enc ≤ w + 1
      → off + w ≤ length bytes
      → or_else (find_in_window enc bytes end n (take w (drop off bytes)) off) other
        ≡ first_frame enc bytes end other n off
  unfolding find_in_window
  find_in_window-first_frame zero w off other room inside = refl
  find_in_window-first_frame (suc n) zero off other room inside =
      absurd (omega (arith, header_len_min enc, room))
  find_in_window-first_frame (suc n) (suc w) off other room inside =
      rw
        (
          is_frame-magic (suc w) off (omega (arith, room)) (omega (arith, inside)),
          next_window w off,
        )
        (elim (Bool-cases (is_frame enc bytes end off)) [
          | inl t ↦ rw t refl
          | inr f ↦ rw f (
              find_in_window-first_frame n w (off + 1) other (omega (arith, room))
                (omega (arith, inside)))
        ])

  find_from-first_frame :
      (n base : ℕ)
      → 0 < n
      → end < n + base
      → end ≤ length bytes
      → find_from enc bytes end n base
        ≡ some (first_frame enc bytes end end (suc end - header_len enc - base) base)
  unfolding find_from
  find_from-first_frame zero base pos fuel inside = absurd (omega (arith, pos))
  find_from-first_frame (suc n) base pos fuel inside =
      elim (Bool-cases (leb (base + header_len enc) end)) [
        | inr f ↦ let past : suc end - header_len enc - base ≡ 0 = ground arith in rw (f, past) refl
        | inl t ↦
            let room = leb→le _ _ t in
            let four = header_len_min enc in
            let six = header_len_max enc in
            let want = min (end - base) io_buf_size in
            let here = want - header_len enc + 1 in
            let left = suc end - header_len enc - (base + here) in
            let win = take want (drop base bytes) in
            let read = read_full-inside bytes base want (omega (arith, inside, room)) in
            let both : here + left ≡ suc end - header_len enc - base =
              omega (arith, room, four, six) in
            let search =
              find_in_window-first_frame here want base
                (first_frame enc bytes end end left (base + here)) (omega (arith, room, four, six))
                (omega (arith, inside, room))
              ∙ first_frame-append enc bytes end here left base end in
            elim (Option-cases (find_in_window enc bytes end here win base)) [
              | inr (o, found) ↦ rw (t, read, found, ← both) (ap some (rw found at search))
              | inl missed ↦
                  let step : base + (want - (header_len enc - 1)) ≡ base + here =
                    omega (arith, room, four, six) in
                  rw (t, read, missed, step, ← both)
                    (find_from-first_frame n (base + here) (omega (arith, fuel, room, four))
                        (omega (arith, fuel)) inside
                      ∙ ap some (rw missed at search))
            ]
      ]

  -- The search in windows ends, and finds the first offset from `from` on at which an intact header
  -- announces a frame that ends by `end`, or `end` if there is none.
  pub find_next_frame-first_frame :
      (from : ℕ)
      → end ≤ length bytes
      → find_next_frame enc bytes end from
        ≡ some (first_frame enc bytes end end (suc end - header_len enc - from) from)
  unfolding find_next_frame
  find_next_frame-first_frame from inside =
      find_from-first_frame (suc (end - from)) from (omega arith) (omega arith) inside
