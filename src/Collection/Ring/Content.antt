-- ===== src/Collection/Ring/Content.antt =====
-- What a ring holds: the elements from the reading position up to the writing position.
use ew_base.Prelude.{
  ℕ, suc, ◌+◌, ◌%◌, ◌<◌, ◌≡◌, ◌≢◌, refl, ◌⊎◌, inl, inr, some, List, [], ◌∷◌, ◌++◌, arith, length,
  get_elem?, set, get_elem?-set_ne,
}
use native.Mathlib.Decide.{dec_le}
use native.Mathlib.Nat.{mod-eq_of_lt, mod_self}

-- `Holds xs size rd wr vs`: from `rd` on, up to `wr`, the array holds `vs`.
pub data Holds {A : Type 0} (xs : List A) (size : ℕ) : ℕ → ℕ → List A → Type 0 where
  nothing : {p : ℕ} → Holds xs size p p []
  more :
      {rd wr : ℕ} {v : A} {vs : List A}
      → rd ≢ wr
      → get_elem? xs rd ≡ some v
      → Holds xs size ((rd + 1) % size) wr vs
      → Holds xs size rd wr (v ∷ vs)

pub next-cases :
    (p size : ℕ)
    → p < size
    → ((suc p ≡ size) × ((p + 1) % size ≡ 0)) ⊎ ((suc p < size) × ((p + 1) % size ≡ p + 1))
next-cases p size h = elim (dec_le (suc (suc p)) size) [
  | yes inside ↦ inr (inside, mod-eq_of_lt {n = p + 1} {m = size} (omega arith))
  | no last ↦ let e : p + 1 ≡ size = omega arith in inl (omega arith, rw e (mod_self size))
]

pub next-bound : (p size : ℕ) → p < size → (p + 1) % size < size
next-bound p size h = ground (arith, next-cases p size h)

pub next-injective : (p q size : ℕ) → p < size → q < size → (p + 1) % size ≡ (q + 1) % size → p ≡ q
next-injective p q size h k e = ground (arith, next-cases p size h, next-cases q size k)

module _ {A : Type 0} where
  -- An element that is written behind the last one.
  pub Holds-snoc :
      (xs : List A) (size : ℕ) {rd wr : ℕ} {vs : List A} (t : A)
      → length xs ≡ size
      → rd < size
      → wr < size
      → (wr + 1) % size ≢ rd
      → get_elem? xs wr ≡ some t
      → Holds xs size rd wr vs
      → Holds xs size rd ((wr + 1) % size) (vs ++ t ∷ [])
  Holds-snoc xs size t l r w free here nothing = more (λ e. free (cc)) here nothing
  Holds-snoc xs size {rd} {wr} t l r w free here (more ne at rest) =
      more (λ e. free (cc)) at
        (Holds-snoc xs size t l (next-bound rd size r) w
          (λ e. ne (cc (next-injective wr rd size w r e))) here rest)

  -- Writing at `wr` keeps the elements.
  pub Holds-set :
      (xs : List A) (size : ℕ) {rd wr : ℕ} {vs : List A} (t : A)
      → Holds xs size rd wr vs
      → Holds (set xs wr t) size rd wr vs
  Holds-set xs size t nothing = nothing
  Holds-set xs size {rd} {wr} t (more ne at rest) =
      more ne (cc (get_elem?-set_ne xs wr rd t (λ e. ne (cc)))) (Holds-set xs size t rest)

  pub Holds-cases :
      (xs : List A) (size : ℕ) {rd wr : ℕ} {vs : List A}
      → Holds xs size rd wr vs
      → ((rd ≡ wr) × (vs ≡ []))
        ⊎ ((v : A) × (rest : List A) × (vs ≡ v ∷ rest)
            × (rd ≢ wr)
            × (get_elem? xs rd ≡ some v)
            × Holds xs size ((rd + 1) % size) wr rest)
  Holds-cases xs size nothing = inl (refl, refl)
  Holds-cases xs size (more ne at rest) = inr (_, _, refl, ne, at, rest)
