-- ===== src/Discovery/Table.antt =====
-- What is left of a range behind one of its attributes.
use btle_js.Prelude.{
  ℕ, ◌+◌, ◌≤◌, ◌<◌, ◌≡◌, refl, List, [], ◌∷◌, ◌++◌, ◌&&◌, leb, All, arith, Bool-cases, inl, inr,
}
use mathlib.Core.Path.{subst}
use btle_js.Parse.{AttributeInfo}
use btle_js.Discovery.{in_range, IsSorted}

module _ (P : AttributeInfo → Type 0) where
  All-in_range : (s e : ℕ) (t : List AttributeInfo) → All P t → All P (in_range s e t)
  All-in_range s e [] h = tt
  All-in_range s e (a ∷ t) h = elim (Bool-cases (leb s a.handle && leb a.handle e)) [
    | inl yes_in ↦ rw yes_in (h.0, All-in_range s e t h.1)
    | inr out ↦ rw out (All-in_range s e t h.1)
  ]

  pub All-front : (xs ys : List AttributeInfo) → All P (xs ++ ys) → All P xs
  All-front [] ys h = tt
  All-front (x ∷ xs) ys h = (h.0, All-front xs ys h.1)

  pub All-middle :
      (xs : List AttributeInfo) (x : AttributeInfo) (ys : List AttributeInfo)
      → All P (xs ++ (x ∷ ys))
      → P x
  All-middle [] x ys h = h.0
  All-middle (y ∷ xs) x ys h = All-middle xs x ys h.1

  pub All-part :
      (s e : ℕ) (t xs ys : List AttributeInfo) → All P t → in_range s e t ≡ xs ++ ys → All P xs
  All-part s e t xs ys h q = All-front xs ys (subst (All P) q (All-in_range s e t h))

pub in_range_bounds :
    (s e : ℕ) (t : List AttributeInfo) → All (λ a. (s ≤ a.handle) × (a.handle ≤ e)) (in_range s e t)
in_range_bounds s e [] = tt
in_range_bounds s e (a ∷ t) = elim (Bool-cases (leb s a.handle && leb a.handle e)) [
  | inl yes_in ↦ rw yes_in ((ground arith, ground arith), in_range_bounds s e t)
  | inr out ↦ rw out (in_range_bounds s e t)
]

-- Raising the start to a number below which nothing is left changes nothing.
in_range_skip :
    (s e m : ℕ) (t : List AttributeInfo)
    → s ≤ m + 1
    → All (λ b. m < b.handle) t
    → in_range (m + 1) e t ≡ in_range s e t
in_range_skip s e m [] h g = refl
in_range_skip s e m (a ∷ t) h g = ground (arith, in_range_skip s e m t h g.1)

above :
    (s e m : ℕ) (t xs : List AttributeInfo) (x : AttributeInfo) (ys : List AttributeInfo)
    → All (λ b. m < b.handle) t
    → in_range s e t ≡ xs ++ (x ∷ ys)
    → m < x.handle
above s e m t xs x ys g h =
    All-middle (λ b. m < b.handle) xs x ys
      (subst (All (λ b. m < b.handle)) h (All-in_range (λ b. m < b.handle) s e t g))

pub in_range_behind :
    (s e : ℕ) (t xs : List AttributeInfo) (x : AttributeInfo) (ys : List AttributeInfo)
    → IsSorted t
    → s ≤ x.handle
    → x.handle ≤ e
    → in_range s e t ≡ xs ++ (x ∷ ys)
    → in_range (x.handle + 1) e t ≡ ys
in_range_behind s e [] [] x ys g p q h = absurd (ground arith)
in_range_behind s e [] (z ∷ xs) x ys g p q h = absurd (ground arith)
in_range_behind s e (a ∷ t) [] x ys g p q h =
    ground (arith, in_range_skip s e a.handle t, in_range_behind s e t [] x ys g.1 p q)
in_range_behind s e (a ∷ t) (z ∷ xs) x ys g p q h = ground (
  arith,
  in_range_behind s e t xs x ys g.1 p q,
  in_range_behind s e t (z ∷ xs) x ys g.1 p q,
  above s e a.handle t xs x ys g.0,
)

pub in_range_empty : (s e : ℕ) (t : List AttributeInfo) → e < s → in_range s e t ≡ []
in_range_empty s e [] h = refl
in_range_empty s e (a ∷ t) h = ground (arith, in_range_empty s e t h)
