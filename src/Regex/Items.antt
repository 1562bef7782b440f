-- ===== src/Regex/Items.antt =====
-- src/ewa_base/util/regex_parser.h and regex_impl.cpp: the items, and what they do to the position.
use ew_base.Prelude.{
  ℕ, zero, suc, ◌+◌, ◌-◌, ◌/◌, ◌%◌, ◌^◌, Bool, Option, none, some, List, [], ◌∷◌, ltb, leb, ◌==◌,
  if◌then◌else◌, length, get_elem?, get_or,
}
use ew_base.Prelude.Run.{Run, ok, fault, ◌>>=◌, reads}
use ew_base.Strlib.Case.{lowercase}

-- A bitmap has eight words. The pointers to items are numbers, and NULL is zero. `nmax` is none for -1.
pub data Item : Type 0 where
  item_none : Item
  char_str : List ℕ → Item
  char_str_ignorecase : List ℕ → Item
  char_map : List ℕ → Item
  char_map_unicode : List ℕ → Item
  char_any : Item
  repeat : Item
  repeat_next : ℕ → Option ℕ → ℕ → Bool → Item
  either : ℕ → Item
  expr_enter : Item
  expr_leave : Item
  line_enter : Item
  line_leave : Item
  seq : Item
  seq_end : Item
  identifier : Item

pub record Node : Type 0 where
  pub item : Item
  pub sibling : ℕ

-- What `execute` is called with: the items, the memory of the text, where the text begins and ends
-- in it, and FLAG_RE_PARTITIAL.
pub record Subject : Type 0 where
  pub items : ℕ → Option Node
  pub text : List ℕ
  pub it_beg : ℕ
  pub it_end : ℕ
  pub partial : Bool

-- `regex_item_char_map::get`
unfoldable pub char_map_get : List ℕ → ℕ → Bool
char_map_get bitmap ch = (get_or bitmap (ch / 32) 0 / 2 ^ (ch % 32)) % 2 == 1

-- The loops of ITEM_CHAR_STR and ITEM_CHAR_STR_IGNORECASE, where `same` compares two characters.
unfoldable pub match_str : (ℕ → ℕ → Bool) → Subject → List ℕ → ℕ → Run (Option ℕ)
match_str same s [] i = ok (some i)
match_str same s (c ∷ v) i =
    if c == 0
    then ok (some i)
    else if i == s.it_end
    then ok none
    else (reads (get_elem? s.text i) >>= λ x.
        if same x c then match_str same s v (suc i) else ok none)

abbrev pub same_char : ℕ → ℕ → Bool
same_char x c = x == c

abbrev pub same_letter : ℕ → ℕ → Bool
same_letter x c = lowercase x == lowercase c

unfoldable pub match_any : Subject → ℕ → Run (Option ℕ)
match_any s i = if i == s.it_end then ok none else ok (some (suc i))

unfoldable pub match_map : List ℕ → Subject → ℕ → Run (Option ℕ)
unfolding char_map_get
match_map bitmap s i =
    reads (get_elem? s.text i) >>= λ c. ok (if char_map_get bitmap c then some (suc i) else none)

-- `ipos+=n`, and not past the end.
unfoldable pub skip_to_end : Subject → ℕ → Option ℕ
skip_to_end s j = some (if ltb s.it_end j then s.it_end else j)

unfoldable pub match_map_unicode : List ℕ → Subject → ℕ → Run (Option ℕ)
unfolding char_map_get skip_to_end
match_map_unicode bitmap s i = reads (get_elem? s.text i) >>= λ uc. ok (
    if leb 0xC0 uc
    then (if ltb uc 0xE0
        then skip_to_end s (i + 2)
        else if ltb uc 0xF0
        then skip_to_end s (i + 3)
        else skip_to_end s (i + 4))
    else if char_map_get bitmap uc
    then some (suc i)
    else none)

unfoldable pub match_line_enter : Subject → ℕ → Run (Option ℕ)
match_line_enter s i =
    if i == s.it_beg
    then ok (some i)
    else (reads (get_elem? s.text (i - 1)) >>= λ c. ok (if c == b'\n' then some i else none))

-- `for(;ipos!=it_end && *ipos=='\r';ipos++);`, a round for every character of the memory.
unfoldable pub skip_returns : ℕ → Subject → ℕ → Run ℕ
skip_returns zero s i = fault
skip_returns (suc n) s i =
    if i == s.it_end
    then ok i
    else (reads (get_elem? s.text i) >>= λ c. if c == b'\r' then skip_returns n s (suc i) else ok i)

unfoldable pub match_line_leave : Subject → ℕ → Run (Option ℕ)
unfolding skip_returns
match_line_leave s i = skip_returns (suc (length s.text)) s i >>= λ j.
    if j == s.it_end
    then ok (some j)
    else (reads (get_elem? s.text j) >>= λ c. ok (if c == b'\n' then some (suc j) else none))
