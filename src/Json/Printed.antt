-- ===== src/Json/Printed.antt =====
-- `read_string` reads back what `string_strencode` writes.
use ew_base.Prelude.{
  ℕ, zero, suc, ◌-◌, ◌%◌, ◌<◌, ◌≡◌, ◌≢◌, refl, ap, inl, inr, Bool, true, false, ◌||◌, Bool-cases,
  some, [], ◌∷◌, ◌++◌, ltb, ◌==◌, length, drop, All, arith,
}
use ew_base.Prelude.Run.{ok}
use ew_base.Codecvt.{Bytes, encode_unit, unicode_to_utf8}
use ew_base.Strlib.Strencode.{strencode_byte, string_strencode}
use ew_base.Strlib.Decode.{coded}
use ew_base.Json.Lexer.{◌>>?◌, is_blank, match_char, Quoted, scan_string}
use ew_base.Json.Strings.{
  to_wchar, unquote_one, unquote_loop, wide_text, name_of, quoted, read_string,
}
use ew_base.Json.Reads.{skip_blank_solid}

-- A character of ASCII but tab, carriage return and line feed.
abbrev pub IsPlain : ℕ → Type 0
IsPlain c = (c ≢ 0) × (c < 128) × (c ≢ b'\t') × (c ≢ b'\r') × (c ≢ b'\n')

-- The two characters that are written behind a backslash.
abbrev quotes : ℕ → Bool
quotes c = c == b'"' || c == b'\\'

strencode_byte_plain : (c : ℕ) → IsPlain c → quotes c ≡ false → strencode_byte c ≡ c ∷ []
unfolding strencode_byte
strencode_byte_plain c (z, a, t, r, n) h =
    let control : (c == b'\t' || c == b'\r' || c == b'\n') ≡ false = ground arith in
    rw (h, control) refl

strencode_byte_quoted : (c : ℕ) → quotes c ≡ true → strencode_byte c ≡ b'\\' ∷ c ∷ []
unfolding strencode_byte
strencode_byte_quoted c h = rw h refl

string_strencode-coded :
    (s n : Bytes) → All IsPlain s → string_strencode (s ++ 0 ∷ n) ≡ ok (coded strencode_byte s)
unfolding string_strencode coded
string_strencode-coded [] n h = refl
string_strencode-coded (c ∷ s) n ((z, a, t, r, f), h) =
    let nz : (c == 0) ≡ false = ground arith in rw (nz, string_strencode-coded s n h) refl

wide_text_plain : (s : Bytes) → All IsPlain s → unicode_to_utf8 s ≡ some s
unfolding unicode_to_utf8 encode_unit
wide_text_plain [] h = refl
wide_text_plain (c ∷ s) ((z, a, t, r, f), h) =
    let low : ltb c 0x80 ≡ true = ground arith in
    let same_byte : c % 256 ≡ c = omega arith in rw (low, same_byte, wide_text_plain s h) refl

pub scan_plain :
    (c : ℕ) (p : Bytes) (raw mark : Bytes) (flag : Bool)
    → (c == b'"') ≡ false
    → (c == 0) ≡ false
    → (c == b'\\') ≡ false
    → scan_string p ≡ ok (some (record { raw = raw; flag = flag; mark = mark }))
    → scan_string (c ∷ p) ≡ ok (some (record { raw = c ∷ raw; flag = flag; mark = mark }))
unfolding scan_string ◌>>?◌
scan_plain c [] raw mark flag a b d e = cc
scan_plain c (x ∷ p) raw mark flag a b d e = rw (scan_string, a, b, d, e) refl

scan_quoted :
    (c : ℕ) (p : Bytes) (raw mark : Bytes) (flag : Bool)
    → scan_string p ≡ ok (some (record { raw = raw; flag = flag; mark = mark }))
    → scan_string (b'\\' ∷ c ∷ p)
      ≡ ok (some (record { raw = b'\\' ∷ c ∷ raw; flag = true; mark = mark }))
unfolding scan_string ◌>>?◌
scan_quoted c p raw mark flag e = rw e refl

-- The scan of the text that `string_strencode` writes for `s`.
record CodedScan (s e r : Bytes) : Type 0 where
  flag : Bool
  scan : scan_string (e ++ b'"' ∷ r) ≡ ok (some (record { raw = e; flag = flag; mark = b'"' ∷ r }))
  unflagged : flag ≡ false → e ≡ s

pub scan_mark :
    (r : Bytes)
    → scan_string (b'"' ∷ r) ≡ ok (some (record { raw = []; flag = false; mark = b'"' ∷ r }))
unfolding scan_string
scan_mark [] = refl
scan_mark (x ∷ r) = refl

scan_coded : (s r : Bytes) → All IsPlain s → CodedScan s (coded strencode_byte s) r
unfolding coded
scan_coded [] r h = record { flag = false; scan = scan_mark r; unflagged = λ e. refl }
scan_coded (c ∷ s) r (p, h) =
    let rec = scan_coded s r h in
    elim (Bool-cases (quotes c)) [
      | inl two ↦ rw (strencode_byte_quoted c two) (record {
        flag = true;
        scan = scan_quoted c _ _ _ rec.flag rec.scan;
        unflagged = λ e. absurd (ground arith);
      })
      | inr one ↦
          let (z, a, t, u, f) = p in
          rw (strencode_byte_plain c p one) (record {
            flag = rec.flag;
            scan =
                scan_plain c _ _ _ rec.flag (ground arith) (ground arith) (ground arith) rec.scan;
            unflagged = λ e. ap (λ x. c ∷ x) (rec.unflagged e);
          })
    ]

unquote_one_plain :
    (w c : ℕ) (p : Bytes)
    → c < 128
    → (c == b'\\') ≡ false
    → unquote_one w (c ∷ p) ≡ ok (some (c ∷ [], 1))
unfolding unquote_one to_wchar
unquote_one_plain w c p low h = let l : ltb c 128 ≡ true = ground arith in rw (h, l) refl

unquote_one_quoted :
    (w c : ℕ) (p : Bytes) → quotes c ≡ true → unquote_one w (b'\\' ∷ c ∷ p) ≡ ok (some (c ∷ [], 2))
unfolding unquote_one
unquote_one_quoted w c p h = elim (Bool-cases (c == b'"')) [
  | inl mark ↦ let e : c ≡ b'"' = ground arith in rw e refl
  | inr other ↦ let e : c ≡ b'\\' = ground arith in rw e refl
]

unquote_loop-coded :
    (fuel w : ℕ) (s m : Bytes)
    → All IsPlain s
    → length (coded strencode_byte s) < fuel
    → unquote_loop fuel w (length (coded strencode_byte s)) (coded strencode_byte s ++ m)
      ≡ ok (some s)
unfolding unquote_loop coded ◌>>?◌
unquote_loop-coded zero w s m h l = absurd (omega arith)
unquote_loop-coded (suc fuel) w [] m h l = refl
unquote_loop-coded (suc fuel) w (c ∷ s) m (p, h) l = elim (Bool-cases (quotes c)) [
  | inl two ↦
      let size : length (coded strencode_byte (c ∷ s))
          ≡ suc (suc (length (coded strencode_byte s))) =
        rw (coded, strencode_byte_quoted c two) refl in
      let step : suc (suc (length (coded strencode_byte s))) - 2 ≡ length (coded strencode_byte s) =
        omega arith in
      rw (strencode_byte_quoted c two) (
        rw
          (
            unquote_loop,
            unquote_one_quoted w c (coded strencode_byte s ++ m) two,
            step,
            unquote_loop-coded fuel w s m h (omega (arith, size)),
          )
          refl)
  | inr one ↦
      let (z, a, t, u, f) = p in
      let size : length (coded strencode_byte (c ∷ s)) ≡ suc (length (coded strencode_byte s)) =
        rw (coded, strencode_byte_plain c p one) refl in
      let step : suc (length (coded strencode_byte s)) - 1 ≡ length (coded strencode_byte s) =
        omega arith in
      rw (strencode_byte_plain c p one) (
        rw
          (
            unquote_loop,
            unquote_one_plain w c (coded strencode_byte s ++ m) a (ground arith),
            step,
            unquote_loop-coded fuel w s m h (omega (arith, size)),
          )
          refl)
]

wide_text_same : (s : Bytes) → All IsPlain s → wide_text s ≡ s
unfolding wide_text
wide_text_same s h = rw (wide_text, wide_text_plain s h) refl

name_of-coded :
    (w : ℕ) (s r : Bytes) (flag : Bool)
    → All IsPlain s
    → (flag ≡ false → coded strencode_byte s ≡ s)
    → name_of w false (coded strencode_byte s) flag (b'"' ∷ r) ≡ ok (some s)
unfolding name_of ◌>>?◌
name_of-coded w s r true h same_text =
    rw (unquote_loop-coded (suc (length (coded strencode_byte s))) w s (b'"' ∷ r) h (omega arith))
      (ap (λ z. ok (some z)) (wide_text_same s h))
name_of-coded w s r false h same_text = ap (λ z. ok (some z)) (same_text refl)

-- Another byte than a quotation mark at the start.
abbrev pub Opening : Bytes → Type 0
Opening [] = ⊥
Opening (x ∷ q) = (x == b'"') ≡ false

pub quoted_other :
    (w : ℕ) (u : Bool) (p : Bytes) (k : Quoted) (name : Bytes)
    → Opening p
    → scan_string p ≡ ok (some k)
    → name_of w u k.raw k.flag k.mark ≡ ok (some name)
    → quoted w u p ≡ ok (some (name, drop 1 k.mark))
unfolding quoted ◌>>?◌
quoted_other w u [] k name h scan named = absurd h
quoted_other w u (x ∷ q) k name h scan named = rw (h, scan, named) refl

pub is_blank_mark : is_blank b'"' ≡ false
unfolding is_blank
is_blank_mark = refl

pub quoted_empty :
    (w d : ℕ) (r : Bytes)
    → (d == b'"') ≡ false
    → quoted w false (b'"' ∷ d ∷ r) ≡ ok (some ([], d ∷ r))
unfolding quoted scan_string name_of ◌>>?◌
quoted_empty w d r h = rw h refl

coded_start : (c : ℕ) (s r : Bytes) → IsPlain c → Opening (coded strencode_byte (c ∷ s) ++ r)
unfolding coded
coded_start c s r p = elim (Bool-cases (quotes c)) [
  | inl two ↦ rw (strencode_byte_quoted c two) refl
  | inr one ↦ rw (strencode_byte_plain c p one) (ground arith)
]

quoted-coded :
    (w : ℕ) (s : Bytes) (d : ℕ) (r : Bytes)
    → All IsPlain s
    → d ≢ b'"'
    → quoted w false (coded strencode_byte s ++ b'"' ∷ d ∷ r) ≡ ok (some (s, d ∷ r))
unfolding coded
quoted-coded w [] d r h other = quoted_empty w d r (ground arith)
quoted-coded w (c ∷ s) d r (p, h) other =
    let k = scan_coded (c ∷ s) (d ∷ r) (p, h) in
    quoted_other w false (coded strencode_byte (c ∷ s) ++ b'"' ∷ d ∷ r) _ (c ∷ s)
      (coded_start c s (b'"' ∷ d ∷ r) p) k.scan
      (name_of-coded w (c ∷ s) (d ∷ r) k.flag (p, h) k.unflagged)

-- For a text of ASCII characters but tab, carriage return, line feed and zero, with a zero byte behind
-- it, string_strencode returns a text that read_string, without unescape_value, reads back between
-- quotation marks, if no other quotation mark follows.
pub read_string-string_strencode :
    (w : ℕ) (s n : Bytes) (d : ℕ) (r : Bytes)
    → All IsPlain s
    → d ≢ b'"'
    → (e : Bytes) × (string_strencode (s ++ 0 ∷ n) ≡ ok e)
      × (read_string w false (b'"' ∷ (e ++ b'"' ∷ d ∷ r)) ≡ ok (some (s, d ∷ r)))
unfolding read_string match_char
read_string-string_strencode w s n d r h other = (
  coded strencode_byte s,
  string_strencode-coded s n h,
  rw (skip_blank_solid b'"' (coded strencode_byte s ++ b'"' ∷ d ∷ r) is_blank_mark refl)
      (quoted-coded w s d r h other),
)
