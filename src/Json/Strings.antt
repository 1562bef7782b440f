-- ===== src/Json/Strings.antt =====
-- src/ewa_base/util/json.cpp: `read_string` and `read_name`.
use ew_base.Prelude.{
  ℕ, zero, suc, ◌+◌, ◌-◌, ◌*◌, ◌^◌, Bool, true, false, not, ◌||◌, none, some, List, [], ◌∷◌, ◌++◌,
  ltb, ◌==◌, if◌then◌else◌, length, get_elem?, drop,
}
use ew_base.Prelude.Run.{ok, fault, no_fuel, ◌>>=◌, reads}
use ew_base.Codecvt.{Bytes, unicode_to_utf8}
use ew_base.Strlib.{number16b, string_unescape}
use ew_base.Json.Lexer.{Parsed, ◌>>?◌, skip_blank, match_char, read_chunk, read_triple, scan_string}

-- The loop over the digits behind `\u`: up to four, `none` at the first byte that is none.
unfoldable pub hex_digits : ℕ → Bytes → ℕ → Parsed ℕ
hex_digits zero p val = ok (some val)
hex_digits (suc n) [] val = fault
hex_digits (suc n) (d ∷ p) val = elim (number16b d == 0xFF) [
  | true ↦ ok none
  | false ↦ hex_digits n p (val * 2 ^ 4 + number16b d)
]

-- A `char` is signed: it keeps its sign as a `wchar_t`.
unfoldable pub to_wchar : ℕ → ℕ → ℕ
to_wchar w c = if ltb c 128 then c else c + 2 ^ w - 256

-- A byte and the one behind a backslash, in a string with a backslash: the units that are appended,
-- and by how much the pointer moves. A broken `\u` appends nothing.
unfoldable pub unquote_one : ℕ → Bytes → Parsed (List ℕ × ℕ)
unfolding hex_digits to_wchar
unquote_one w [] = fault
unquote_one w (c ∷ p) =
    if not (c == b'\\')
    then ok (some (to_wchar w c ∷ [], 1))
    else (reads (get_elem? p 0) >>= λ e.
        if e == b'r'
        then ok (some (b'\r' ∷ [], 2))
        else if e == b'n'
        then ok (some (b'\n' ∷ [], 2))
        else if e == b't'
        then ok (some (b'\t' ∷ [], 2))
        else if e == b'/' || e == b'\\' || e == b'"' || e == b'\''
        then ok (some (e ∷ [], 2))
        else if e == b'u'
        then (hex_digits 4 (drop 1 p) 0 >>= λ o. elim o [
          | none ↦ ok (some ([], 4))
          | some val ↦ ok (some (val ∷ [], 6))
        ])
        else ok none)

-- The loop `for(p=p1;p<pchar;)`, where `n` is the distance to `pchar`.
unfoldable pub unquote_loop : ℕ → ℕ → ℕ → Bytes → Parsed (List ℕ)
unfolding unquote_one
unquote_loop zero w n p = no_fuel
unquote_loop (suc fuel) w zero p = ok (some [])
unquote_loop (suc fuel) w (suc n) p = unquote_one w p >>? λ r.
    unquote_loop fuel w (suc n - r.1) (drop (r.1) p) >>? λ us. ok (some (r.0 ++ us))

-- `IConv::unicode_to_utf8`, which leaves the buffer empty when it fails.
unfoldable pub wide_text : List ℕ → Bytes
wide_text us = elim (unicode_to_utf8 us) [ none ↦ [] | some bs ↦ bs ]

-- `read_string` behind the closing quotation mark: what `name` becomes.
unfoldable pub name_of : ℕ → Bool → Bytes → Bool → Bytes → Parsed Bytes
unfolding unquote_loop wide_text
name_of w unescape_value raw flag mark =
    if flag
    then (unquote_loop (suc (length raw)) w (length raw) (raw ++ mark) >>? λ us.
        ok (some (wide_text us)))
    else if unescape_value
    then (string_unescape (raw ++ 0 ∷ []) >>= λ name. ok (some name))
    else ok (some raw)

-- `read_string` behind the opening quotation mark.
unfoldable pub quoted : ℕ → Bool → Bytes → Parsed (Bytes × Bytes)
unfolding read_triple scan_string name_of
quoted w unescape_value p =
    let plain = scan_string p >>? λ q.
    name_of w unescape_value q.raw q.flag q.mark >>? λ name. ok (some (name, drop 1 q.mark)) in
    reads (get_elem? p 0) >>= λ c.
    if c == b'"'
    then (reads (get_elem? p 1) >>= λ d. if d == b'"' then read_triple (drop 2 p) else plain)
    else plain

unfoldable pub read_string : ℕ → Bool → Bytes → Parsed (Bytes × Bytes)
unfolding quoted match_char
read_string w unescape_value p =
    match_char b'"' p >>= λ m. if not (m.0) then ok none else quoted w unescape_value (m.1)

-- `read_name`
unfoldable pub read_name : ℕ → Bool → Bytes → Parsed (Bytes × Bytes)
unfolding read_string skip_blank read_chunk
read_name w unescape_value p = skip_blank p >>= λ q. reads (get_elem? q 0) >>= λ c.
    if c == b'"' then read_string w unescape_value q else (read_chunk q >>= λ r. ok (some r))
