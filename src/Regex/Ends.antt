-- ===== src/Regex/Ends.antt =====
-- What an item does to the position never runs out of fuel.
use ew_base.Prelude.{
  ℕ, zero, suc, ◌-◌, Bool, true, false, Option, none, some, List, [], ◌∷◌, ◌==◌, if◌then◌else◌,
  length, get_elem?,
}
use ew_base.Prelude.Run.{Run, ok, fault, no_fuel, ◌>>=◌, reads}
use ew_base.Regex.Items.{
  Item, char_str, char_str_ignorecase, char_map, char_map_unicode, char_any, line_enter, line_leave,
  Subject, match_str, same_char, same_letter, match_any, match_map, match_map_unicode,
  match_line_enter, skip_returns, match_line_leave,
}
use ew_base.Regex.Reference.{advance}

abbrev pub Ends : {A : Type 0} → Run A → Type 0
Ends no_fuel = ⊥
Ends fault = Unit
Ends (ok a) = Unit

Ends-reads :
    {A B : Type 0} (o : Option A) (f : A → Run B) → ((a : A) → Ends (f a)) → Ends (reads o >>= f)
Ends-reads none f h = tt
Ends-reads (some a) f h = h a

Ends-if : {A : Type 0} (b : Bool) (x y : Run A) → Ends x → Ends y → Ends (if b then x else y)
Ends-if true x y h k = h
Ends-if false x y h k = k

match_str-Ends :
    (same : ℕ → ℕ → Bool) (s : Subject) (v : List ℕ) (i : ℕ) → Ends (match_str same s v i)
unfolding match_str
match_str-Ends same s [] i = tt
match_str-Ends same s (c ∷ v) i = Ends-if (c == 0) _ _ tt (
    Ends-if (i == s.it_end) _ _ tt (
      Ends-reads (get_elem? s.text i) _
        (λ x. Ends-if (same x c) _ _ (match_str-Ends same s v (suc i)) tt)))

skip_returns-Ends : (n : ℕ) (s : Subject) (i : ℕ) → Ends (skip_returns n s i)
unfolding skip_returns
skip_returns-Ends zero s i = tt
skip_returns-Ends (suc n) s i = Ends-if (i == s.it_end) _ _ tt (
    Ends-reads (get_elem? s.text i) _
      (λ c. Ends-if (c == b'\r') _ _ (skip_returns-Ends n s (suc i)) tt))

Ends-bind :
    {A B : Type 0} (r : Run A) (f : A → Run B) → Ends r → ((a : A) → Ends (f a)) → Ends (r >>= f)
Ends-bind no_fuel f h k = absurd h
Ends-bind fault f h k = tt
Ends-bind (ok a) f h k = k a

pub advance-Ends : (s : Subject) (item : Item) (i : ℕ) → Ends (advance s item i)
unfolding advance match_any match_map match_map_unicode match_line_enter match_line_leave
advance-Ends s (char_str v) i = match_str-Ends same_char s v i
advance-Ends s (char_str_ignorecase v) i = match_str-Ends same_letter s v i
advance-Ends s (char_map b) i = Ends-reads (get_elem? s.text i) _ (λ c. tt)
advance-Ends s (char_map_unicode b) i = Ends-reads (get_elem? s.text i) _ (λ c. tt)
advance-Ends s char_any i = Ends-if (i == s.it_end) _ _ tt tt
advance-Ends s line_enter i =
    Ends-if (i == s.it_beg) _ _ tt (Ends-reads (get_elem? s.text (i - 1)) _ (λ c. tt))
advance-Ends s line_leave i =
    Ends-bind (skip_returns (suc (length s.text)) s i) _
      (skip_returns-Ends (suc (length s.text)) s i)
      (λ j. Ends-if (j == s.it_end) _ _ tt (Ends-reads (get_elem? s.text j) _ (λ c. tt)))
advance-Ends s _ i = tt
