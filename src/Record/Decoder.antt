-- ===== src/Record/Decoder.antt =====
-- The steps of record_decode as a monad over its cursor: `none` is `goto fail`.
use aegisdb.Prelude.{◌≡◌, refl, Bool, true, false, Option, none, some, if◌then◌else◌}
use aegisdb.Record.Cursor.{Cur}

abbrev pub Decoder : Type 0 → Type 0
Decoder A = Cur → Option (A × Cur)

module _ {A B : Type 0} where
  infixl 5 ◌>>=◌ ◌>>◌
  unfoldable pub ◌>>=◌ : Decoder A → (A → Decoder B) → Decoder B
  ◌>>=◌ m f c = elim (m c) [ none ↦ none | some (a, c') ↦ f a c' ]

  abbrev pub ◌>>◌ : Decoder A → Decoder B → Decoder B
  m >> n = m >>= λ _. n

module _ {A : Type 0} where
  abbrev pub pure : A → Decoder A
  pure a c = some (a, c)

  -- A read never fails by itself: it marks the cursor.
  unfoldable pub read : (Cur → A × Cur) → Decoder A
  read f c = some (f c)

  -- A value that must not be NULL or refused.
  unfoldable pub present : Option A → Decoder A
  present none c = none
  present (some a) c = some (a, c)

-- `if (!ok) goto fail;`
unfoldable pub require : Bool → Decoder (Unit {0})
require ok c = if ok then some (tt, c) else none

-- `if (c.err) goto fail;`
unfoldable pub check : Decoder (Unit {0})
check c = if c.err then none else some (tt, c)

-- How a step that succeeds goes on.
module _ {A B : Type 0} where
  pub bind_step :
      (m : Decoder A) (k : A → Decoder B) {c c' : Cur} {a : A}
      → m c ≡ some (a, c')
      → (m >>= k) c ≡ k a c'
  unfolding ◌>>=◌
  bind_step m k e = rw (◌>>=◌, e)

  pub read_step :
      (f : Cur → A × Cur) (k : A → Decoder B) {c c' : Cur} {a : A}
      → f c ≡ (a, c')
      → (read f >>= k) c ≡ k a c'
  unfolding ◌>>=◌ read
  read_step f k e = rw e

  pub pure_step : (a : A) (k : A → Decoder B) (c : Cur) → (pure a >>= k) c ≡ k a c
  unfolding ◌>>=◌
  pure_step a k c = refl

  pub present_step : (a : A) (k : A → Decoder B) (c : Cur) → (present (some a) >>= k) c ≡ k a c
  unfolding ◌>>=◌ present
  present_step a k c = refl

module _ {B : Type 0} where
  pub check_step : (k : Unit {0} → Decoder B) {c : Cur} → c.err ≡ false → (check >>= k) c ≡ k tt c
  unfolding ◌>>=◌ check
  check_step k {c} e = rw (e, ◌>>=◌)

  pub require_step :
      {ok : Bool} (k : Unit {0} → Decoder B) (c : Cur) → ok ≡ true → (require ok >>= k) c ≡ k tt c
  unfolding ◌>>=◌ require
  require_step k c e = rw e
