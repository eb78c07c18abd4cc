-- ===== src/Log/Append/Write.antt =====
-- Where pwrite puts its bytes in a file whose end is known.
use aegisdb.Prelude.{
  ℕ, ◌-◌, ◌≤◌, ◌<◌, ◌≡◌, refl, true, false, none, some, List, ◌++◌, append_assoc, append-nil,
  le→leb, lt→leb, length, length-append, take, drop, take-prefix, drop-prefix, drop-drop, arith,
}
use aegisdb.Log.{LogFile, overwrite, write_full}

module _ (pre junk : List ℕ) where
  overwrite-end :
      (buf : List ℕ)
      → overwrite (pre ++ junk) (length pre) buf ≡ pre ++ (buf ++ drop (length buf) junk)
  unfolding overwrite
  overwrite-end buf =
      let no_gap : length pre - length (pre ++ junk) ≡ 0 = omega (arith, length-append pre junk) in
      rw
        (
          no_gap,
          append-nil,
          take-prefix (length pre) pre junk refl,
          drop-drop (length pre) (length buf) (pre ++ junk),
          drop-prefix (length pre) pre junk refl,
        )
        (append_assoc pre buf (drop (length buf) junk))

  module _ (lf : LogFile) (off : ℕ) (at : off ≡ length pre) (file : lf.bytes ≡ pre ++ junk) where
    -- The bytes stand behind `pre`, over the first ones of `junk`.
    pub write_full-all :
        (buf : List ℕ)
        → lf.accepts ≡ none
        → write_full off buf lf
          ≡ (record lf { bytes = (pre ++ buf) ++ drop (length buf) junk }, true)
    unfolding write_full
    write_full-all buf e =
        rw (e, file, at, overwrite-end buf, ← append_assoc pre buf (drop (length buf) junk)) refl

    pub write_full-enough :
        (n : ℕ) (buf : List ℕ)
        → lf.accepts ≡ some n
        → length buf ≤ n
        → write_full off buf lf ≡ (
          record lf {
            bytes = (pre ++ buf) ++ drop (length buf) junk;
            accepts = some (n - length buf);
          },
          true,
        )
    unfolding write_full
    write_full-enough n buf e h =
        rw
          (
            e,
            le→leb _ _ h,
            file,
            at,
            overwrite-end buf,
            ← append_assoc pre buf (drop (length buf) junk),
          )
          refl

    pub write_full-fails :
        (n : ℕ) (buf : List ℕ)
        → lf.accepts ≡ some n
        → n < length buf
        → write_full off buf lf ≡ (
          record lf {
            bytes = pre ++ (take n buf ++ drop (length (take n buf)) junk);
            accepts = some 0;
          },
          false,
        )
    unfolding write_full
    write_full-fails n buf e h = rw (e, lt→leb _ _ h, file, at, overwrite-end (take n buf)) refl
