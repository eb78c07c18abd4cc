-- ===== src/History/Broken.antt =====
-- A step of a run: a write that breaks off, and db_open behind it.
use aegisdb.Prelude.{
  ℕ, ◌<◌, ◌≡◌, refl, sym, ap, ◌∙◌, subst, Bool-cases, Option, none, some, inl, inr, List, [], ◌∷◌,
  length, take,
}
use aegisdb.Aead.{Aead, IsAead}
use aegisdb.Record.{MemoryRecord}
use aegisdb.Log.Append.Frame.{new_frame}
use aegisdb.Log.Frames.{Frame, frame_bytes, content}
use aegisdb.Recovery.{Recovered}
use aegisdb.Store.{
  AegisStatus, aegis_err_quota_exceeded, aegis_err_internal, Db, namespace, is_over_quota,
  append_and_hash, load_record,
}
use aegisdb.Store.Startup.{Startup, db_open}
use aegisdb.Store.Opening.{Passes}
use aegisdb.Log.Open.{is_keyed, key_bytes}
use aegisdb.Store.Loads.{IsStored}
use aegisdb.Compaction.Held.{held-mode}
use aegisdb.Store.Broken.{
  append_and_hash-cut, db_after, broken-IsStored, broken-IsTorn, loads-broken, blocked,
  refused_start, Passes-take, broken-Passes,
}
use aegisdb.History.{IsWritable, limited, recovered}
use aegisdb.History.Safe.{IsSafe, IsGoing, checkpoint-mode, limited-IsStored, same-loads}
use aegisdb.History.Steps.{Shows, some-inj, over_quota}
use aegisdb.History.Restart.{recovered-IsGoing, held-Passes}

apart : aegis_err_quota_exceeded ≡ aegis_err_internal → ⊥
apart e = absurd cc

none-some : {A : Type 0} {a : A} → none ≡ some a → ⊥
none-some e = absurd cc

module _ (cipher : Aead) (law : IsAead cipher) (key : Option (List ℕ)) (db : Db)
    (path : Option (List ℕ)) (fs : List Frame) (g : IsGoing cipher key db path fs) where
  abbrev s : IsSafe cipher db fs
  s = g.safe

  module _ (nonce : List ℕ) (rec : MemoryRecord) (w : IsWritable nonce rec) where
    abbrev next : Frame
    next = new_frame cipher db.log nonce w.buf

    module _ (n : ℕ) (short : n < length (frame_bytes next)) where
      abbrev limited_db : Db
      limited_db = limited (some n) db

      abbrev limited_stored : IsStored cipher limited_db fs
      limited_stored = limited-IsStored cipher db fs s (some n)

      abbrev after_cut : Db
      after_cut =
          db_after cipher law limited_db fs limited_stored refl nonce w.buf rec w.encoded
            w.appendable n refl short

      limited-Passes :
          (gs : List Frame) → Passes cipher db.log gs [] → Passes cipher limited_db.log gs []
      unfolding content
      limited-Passes [] p = p
      limited-Passes (f ∷ gs) p = p

      -- A start behind a write that broke off.
      cut-Shows :
          (st : Startup)
          → st.key ≡ key
          → (r : Recovered) → db_open cipher st after_cut.log.bytes path ≡ some (some r)
          → Shows cipher key (recovered after_cut r) path (load_record cipher db)
      cut-Shows st keyed r back = elim (Bool-cases (blocked limited_db.log fs n)) [
        | inl b ↦
            let refused =
              refused_start cipher law limited_db fs limited_stored refl nonce w.buf rec w.encoded
                w.appendable n refl short st (g.under.0 ∙ sym (ap is_keyed keyed))
                (g.under.1 ∙ sym (ap key_bytes keyed)) path fs refl b in
            absurd (none-some (some-inj (sym refused ∙ back)))
        | inr b ↦
            let broken =
              broken-IsStored cipher law limited_db fs limited_stored refl nonce w.buf rec w.encoded
                w.appendable n refl short in
            let torn =
              broken-IsTorn cipher law limited_db fs limited_stored refl nonce w.buf rec w.encoded
                w.appendable n refl short in
            let kept =
              loads-broken cipher law limited_db fs limited_stored refl nonce w.buf rec w.encoded
                w.appendable n refl short in
            let pass =
              broken-Passes cipher law limited_db fs limited_stored refl nonce w.buf rec w.encoded
                w.appendable n refl short fs (take n (frame_bytes next))
                (Passes-take cipher law limited_db fs limited_stored refl nonce w.buf rec w.encoded
                  w.appendable n refl short fs
                  (limited-Passes fs (held-Passes cipher db.log fs s.held)) b) in
            let (r', p, going, loads) =
              recovered-IsGoing cipher key st keyed after_cut fs broken
                (held-mode cipher db.log after_cut.log refl refl fs s.held) torn g.under pass path
                (checkpoint-mode cipher key db.log after_cut.log fs path refl refl g.checkpoint) in
            let found = some-inj (some-inj (sym p ∙ back)) in
            subst (λ x. Shows cipher key (recovered after_cut x) path (load_record cipher db)) found
              (
                fs,
                going,
                λ id.
                    loads id
                    ∙ kept id
                    ∙ same-loads cipher db limited_db fs refl refl s.stored limited_stored id,
              )
      ]

    -- The write breaks off, and the server comes back.
    pub broken-Shows :
        (n : ℕ)
        → n < length (frame_bytes next)
        → (db' : Db)
        → append_and_hash cipher (some nonce) (limited (some n) db) rec
          ≡ some (aegis_err_internal, db')
        → (st : Startup) → st.key ≡ key
        → (r : Recovered) → db_open cipher st db'.log.bytes path ≡ some (some r)
        → Shows cipher key (recovered db' r) path (load_record cipher db)
    broken-Shows n short db' e st keyed r back =
        let db0 = limited (some n) db in
        let stored = limited-IsStored cipher db fs s (some n) in
        elim (Bool-cases (is_over_quota db0 rec (length w.buf) (namespace db0 rec))) [
          | inl over ↦
              let same : (aegis_err_quota_exceeded, db0) ≡ (aegis_err_internal, db') =
                some-inj (sym (over_quota cipher db0 nonce w.buf rec w.encoded over) ∙ e) in
              let c : aegis_err_quota_exceeded ≡ aegis_err_internal =
                ap (λ (p : AegisStatus × Db). p.0) same in
              absurd (apart c)
          | inr within ↦
              let cutting =
                append_and_hash-cut cipher law db0 fs stored refl nonce w.buf rec w.encoded
                  w.appendable n refl short within in
              let same : (aegis_err_internal, after_cut n short) ≡ (aegis_err_internal, db') =
                some-inj (sym cutting ∙ e) in
              let same' : after_cut n short ≡ db' = ap (λ (p : AegisStatus × Db). p.1) same in
              subst (λ x. Shows cipher key (recovered x r) path (load_record cipher db)) same'
                (cut-Shows n short st keyed r (
                  subst (λ (x : Db). db_open cipher st x.log.bytes path ≡ some (some r)) (sym same')
                    back))
        ]
