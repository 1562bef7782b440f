-- ===== src/Json/Items.antt =====
-- What `WriteArray` makes of the elements, and the loop of `parse_array` on it.
use ew_base.Prelude.{
  ℕ, zero, suc, ◌+◌, ◌<◌, ◌≡◌, refl, ap, ◌∙◌, true, false, some, [], ◌∷◌, ◌++◌, append_assoc, ◌==◌,
  length, length-append, All, arith,
}
use ew_base.Prelude.Run.{ok}
use ew_base.Codecvt.{Bytes}
use ew_base.Json.Lexer.{Parsed, is_blank}
use ew_base.Json.Parser.{
  Platform, Value, Values, array, value, empty, parse_array, array_loop, value_at, parse_value,
}
use ew_base.Json.Blanks.{IsBlank, IsSolid, match_hit, match_miss}
use ew_base.Json.Steps.{parse_array-empty, parse_array_items, array_loop_last, array_loop_more}
use ew_base.Json.ReadsBack.{Stops, comma-Stops, return-Stops, ReadsBack, from_switch}
use ew_base.Json.Writer.{crlf}

pub comma-IsSolid : IsSolid b','
unfolding is_blank
comma-IsSolid = record { no_blank = refl; no_slash = refl }

close-IsSolid : IsSolid b']'
unfolding is_blank
close-IsSolid = record { no_blank = refl; no_slash = refl }

open-IsSolid : IsSolid b'['
unfolding is_blank
open-IsSolid = record { no_blank = refl; no_slash = refl }

pub crlf-IsBlank : (bs : Bytes) → All IsBlank bs → All IsBlank (crlf ++ bs)
unfolding is_blank
crlf-IsBlank bs h = (refl, (refl, h))

module _ {N : Type 0} (platform : Platform N) where
  -- The elements `vs`, written as `body`, are read in front of blanks and the closing bracket.
  pub record ItemsBack (vs : Values N) (body : Bytes) : Type 0 where
    pub start : ℕ
    pub behind : Bytes
    pub shape : body ≡ start ∷ behind
    pub solid : IsSolid start
    pub no_close : (start == b']') ≡ false
    pub back :
        (f fuel : ℕ) (close r : Bytes)
        → All IsBlank close
        → length body < f
        → length body < fuel
        → array_loop (parse_value f platform true) fuel (body ++ (close ++ b']' ∷ r))
          ≡ ok (some (vs, r))

  items_last_back :
      (v : Value N) (a : Bytes)
      → ReadsBack platform v a
      → (f fuel : ℕ) (close r : Bytes) → All IsBlank close
      → length (a ++ crlf) < f
      → length (a ++ crlf) < fuel
      → array_loop (parse_value f platform true) fuel ((a ++ crlf) ++ (close ++ b']' ∷ r))
        ≡ ok (some (value v empty, r))
  items_last_back v a item f zero close r blanks l k = absurd (omega arith)
  items_last_back v a item f (suc fuel) close r blanks l k =
      rw (append_assoc a crlf (close ++ b']' ∷ r)) (
        array_loop_last (parse_value f platform true) fuel (a ++ (crlf ++ (close ++ b']' ∷ r)))
          (crlf ++ (close ++ b']' ∷ r)) (b']' ∷ r) r v
          (item.back f b'\r' (b'\n' ∷ (close ++ b']' ∷ r)) (omega (arith, length-append a crlf))
            return-Stops)
          (match_miss b',' (crlf ++ close) b']' r (crlf-IsBlank close blanks) close-IsSolid refl)
          (match_hit b']' [] r tt close-IsSolid))

  pub items_last :
      (v : Value N) (a : Bytes) → ReadsBack platform v a → ItemsBack (value v empty) (a ++ crlf)
  items_last v a item =
      let record { start = c; behind = w; shape = e; solid = s; no_close = n; back = _ } = item in
      record {
        start = c;
        behind = w ++ crlf;
        shape = ap (λ x. x ++ crlf) e;
        solid = s;
        no_close = n;
        back = items_last_back v a item;
      }

  items_more_back :
      (v : Value N) (a : Bytes) (vs : Values N) (tb body : Bytes)
      → ReadsBack platform v a
      → All IsBlank tb
      → ItemsBack vs body
      → (f fuel : ℕ) (close r : Bytes) → All IsBlank close
      → length (a ++ b',' ∷ (crlf ++ (tb ++ body))) < f
      → length (a ++ b',' ∷ (crlf ++ (tb ++ body))) < fuel
      → array_loop
          (parse_value f platform true)
          fuel
          ((a ++ b',' ∷ (crlf ++ (tb ++ body))) ++ (close ++ b']' ∷ r))
        ≡ ok (some (value v vs, r))
  items_more_back v a vs tb body item tabs items f zero close r blanks l k = absurd (omega arith)
  items_more_back v a vs tb body item tabs items f (suc fuel) close r blanks l k =
      let record { start = c; behind = w; shape = e; solid = s; no_close = n; back = later } =
        items in
      let rest : Bytes = body ++ (close ++ b']' ∷ r) in
      let split : (a ++ b',' ∷ (crlf ++ (tb ++ body))) ++ (close ++ b']' ∷ r)
          ≡ a ++ b',' ∷ ((crlf ++ tb) ++ rest) =
        simp append_assoc in
      let size = length-append a (b',' ∷ (crlf ++ (tb ++ body))) in
      let size' = length-append tb body in
      rw split (
        array_loop_more (parse_value f platform true) fuel (a ++ b',' ∷ ((crlf ++ tb) ++ rest))
          (b',' ∷ ((crlf ++ tb) ++ rest)) ((crlf ++ tb) ++ rest) rest r v vs
          (item.back f b',' ((crlf ++ tb) ++ rest) (omega arith) comma-Stops)
          (match_hit b',' [] ((crlf ++ tb) ++ rest) tt comma-IsSolid)
          (rw e
            (match_miss b']' (crlf ++ tb) c (w ++ (close ++ b']' ∷ r)) (crlf-IsBlank tb tabs) s n))
          (later f fuel close r blanks (omega arith) (omega arith)))

  pub items_more :
      (v : Value N) (a : Bytes) (vs : Values N) (tb body : Bytes)
      → ReadsBack platform v a
      → All IsBlank tb
      → ItemsBack vs body
      → ItemsBack (value v vs) (a ++ b',' ∷ (crlf ++ (tb ++ body)))
  items_more v a vs tb body item tabs items =
      let record { start = c; behind = w; shape = e; solid = s; no_close = n; back = _ } = item in
      record {
        start = c;
        behind = w ++ b',' ∷ (crlf ++ (tb ++ body));
        shape = ap (λ x. x ++ b',' ∷ (crlf ++ (tb ++ body))) e;
        solid = s;
        no_close = n;
        back = items_more_back v a vs tb body item tabs items;
      }

  value_at_open :
      (parse : Bytes → Parsed (Value N × Bytes)) (p : Bytes)
      → value_at platform true parse b'[' p ≡ parse_array parse p
  unfolding value_at
  value_at_open parse p = refl

  pub array_empty :
      (tb : Bytes)
      → All IsBlank tb
      → ReadsBack platform (array empty) (b'[' ∷ ((crlf ++ tb) ++ b']' ∷ []))
  array_empty tb tabs =
      from_switch platform (array empty) b'[' ((crlf ++ tb) ++ b']' ∷ []) open-IsSolid refl
        (λ fuel d r l stop. rw (append_assoc (crlf ++ tb) (b']' ∷ []) (d ∷ r)) (
          value_at_open (parse_value fuel platform true) (b'[' ∷ ((crlf ++ tb) ++ b']' ∷ d ∷ r))
          ∙ parse_array-empty (parse_value fuel platform true)
              (b'[' ∷ ((crlf ++ tb) ++ b']' ∷ d ∷ r)) ((crlf ++ tb) ++ b']' ∷ d ∷ r) (d ∷ r)
              (match_hit b'[' [] ((crlf ++ tb) ++ b']' ∷ d ∷ r) tt open-IsSolid)
              (match_hit b']' (crlf ++ tb) (d ∷ r) (crlf-IsBlank tb tabs) close-IsSolid)))

  array_items_at :
      (vs : Values N) (tb tb' body : Bytes)
      → All IsBlank tb
      → All IsBlank tb'
      → ItemsBack vs body
      → (fuel d : ℕ) (r : Bytes) → length ((crlf ++ tb') ++ (body ++ (tb ++ b']' ∷ []))) < fuel
      → Stops d
      → value_at platform true
          (parse_value fuel platform true)
          b'['
          (b'[' ∷ (((crlf ++ tb') ++ (body ++ (tb ++ b']' ∷ []))) ++ d ∷ r))
        ≡ ok (some (array vs, d ∷ r))
  array_items_at vs tb tb' body tabs tabs' items fuel d r l stop =
      let record { start = c; behind = w; shape = e; solid = s; no_close = n; back = inside } =
        items in
      let rest : Bytes = body ++ (tb ++ b']' ∷ d ∷ r) in
      let split : ((crlf ++ tb') ++ (body ++ (tb ++ b']' ∷ []))) ++ d ∷ r ≡ (crlf ++ tb') ++ rest =
        simp append_assoc in
      let size : length ((crlf ++ tb') ++ (body ++ (tb ++ b']' ∷ [])))
          ≡ length (crlf ++ tb') + (length body + length (tb ++ b']' ∷ [])) =
        length-append (crlf ++ tb') (body ++ (tb ++ b']' ∷ []))
        ∙ ap (λ x. length (crlf ++ tb') + x) (length-append body (tb ++ b']' ∷ [])) in
      let size' : length ((crlf ++ tb') ++ rest)
          ≡ length (crlf ++ tb') + (length body + length (tb ++ b']' ∷ d ∷ r)) =
        length-append (crlf ++ tb') rest
        ∙ ap (λ x. length (crlf ++ tb') + x) (length-append body (tb ++ b']' ∷ d ∷ r)) in
      rw split (
        value_at_open (parse_value fuel platform true) (b'[' ∷ ((crlf ++ tb') ++ rest))
        ∙ parse_array_items (parse_value fuel platform true) (b'[' ∷ ((crlf ++ tb') ++ rest))
            ((crlf ++ tb') ++ rest) rest (d ∷ r) vs
            (match_hit b'[' [] ((crlf ++ tb') ++ rest) tt open-IsSolid)
            (rw e (
              match_miss b']' (crlf ++ tb') c (w ++ (tb ++ b']' ∷ d ∷ r)) (crlf-IsBlank tb' tabs') s
                n))
            (inside fuel (suc (length (b'[' ∷ ((crlf ++ tb') ++ rest)))) tb (d ∷ r) tabs
              (omega arith) (omega arith)))

  pub array_items :
      (vs : Values N) (tb tb' body : Bytes)
      → All IsBlank tb
      → All IsBlank tb'
      → ItemsBack vs body
      → ReadsBack platform (array vs) (b'[' ∷ ((crlf ++ tb') ++ (body ++ (tb ++ b']' ∷ []))))
  array_items vs tb tb' body tabs tabs' items =
      from_switch platform (array vs) b'[' ((crlf ++ tb') ++ (body ++ (tb ++ b']' ∷ [])))
        open-IsSolid refl (array_items_at vs tb tb' body tabs tabs' items)
