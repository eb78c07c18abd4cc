-- ===== src/Record/Stages/Provenance.antt =====
-- The routes of a derived record, read back.
use aegisdb.Prelude.{
  ℕ, ◌<◌, ◌≡◌, refl, ap, ◌∙◌, some, List, [], ◌∷◌, ◌++◌, length, All, arith, append_assoc,
  append-nil,
}
use aegisdb.Bytes.{put_u16le, put_u64le}
use aegisdb.Record.{DerivRoute}
use aegisdb.Record.Route.Insert.{IsRoute}
use aegisdb.Record.Route.Sorted.{IsProvenance}
use aegisdb.Record.Route.Last.{add_route-last}
use aegisdb.Record.Cursor.Reads.{cur, get_u8-put_u8, get_u16-put_u16le, get_u64-put_u64le}
use aegisdb.Record.Encode.{put_ids, put_routes}
use aegisdb.Record.Decoder.{bind_step, read_step, check_step, require_step}
use aegisdb.Record.Decode.{decode_ids, decode_routes_from, decode_routes}
use aegisdb.Record.Valid.{IsU64, IsRouteRange}

decode_ids-put_ids :
    (ps : List ℕ) (ys : List ℕ)
    → All IsU64 ps
    → decode_ids (length ps) (cur (put_ids ps ++ ys)) ≡ some (ps, cur ys)
unfolding decode_ids put_ids
decode_ids-put_ids [] ys h = refl
decode_ids-put_ids (p ∷ ps) ys (hp, h) =
    rw (append_assoc (put_u64le p) (put_ids ps) ys)
      (read_step _ _ (get_u64-put_u64le p _ hp) ∙ bind_step _ _ (decode_ids-put_ids ps ys h))

-- The loop over the routes, with `rs` decoded so far.
decode_routes_from-put_routes :
    (rts rs : List DerivRoute) (ys : List ℕ)
    → IsProvenance (rs ++ rts)
    → All IsRoute rts
    → All IsRouteRange rts
    → decode_routes_from (length rts) rs (cur (put_routes rts ++ ys)) ≡ some (rs ++ rts, cur ys)
unfolding decode_routes_from put_routes
decode_routes_from-put_routes [] rs ys h known ranges = rw (append-nil rs)
decode_routes_from-put_routes (rt ∷ rts) rs ys h ((rule, low, high), known) ((depth, ids), ranges) =
    simp append_assoc (
      read_step _ _ (get_u8-put_u8 rt.rule _ (ground arith))
      ∙ read_step _ _ (get_u16-put_u16le rt.depth _ depth)
      ∙ read_step _ _ (get_u8-put_u8 (length rt.premises) _ (omega arith))
      ∙ check_step _ {c = cur _} refl
      ∙ require_step _ _ rule
      ∙ require_step _ _ (ground arith)
      ∙ bind_step _ _ (decode_ids-put_ids rt.premises _ ids)
      ∙ check_step _ {c = cur _} refl
      ∙ bind_step _ _ (rw (add_route-last rs rt rts h))
      ∙ decode_routes_from-put_routes rts (rs ++ rt ∷ []) ys (rw (append_assoc rs (rt ∷ []) rts) h)
          known ranges
      ∙ ap (λ (l : List DerivRoute). some (l, cur ys)) (append_assoc rs (rt ∷ []) rts))

pub decode_routes-put_routes :
    (rts : List DerivRoute) (ys : List ℕ)
    → 0 < length rts
    → IsProvenance rts
    → All IsRouteRange rts
    → decode_routes (cur (put_u16le (length rts) ++ (put_routes rts ++ ys))) ≡ some (rts, cur ys)
unfolding decode_routes
decode_routes-put_routes rts ys some_there h ranges =
    let few = h.few in
    read_step _ _ (get_u16-put_u16le (length rts) _ (omega arith))
    ∙ check_step _ {c = cur _} refl
    ∙ require_step _ _ (ground arith)
    ∙ decode_routes_from-put_routes rts [] ys h h.known ranges
