-- ===== src/Parse/Loop.antt =====
-- The shared loop: it ends, and it reads back what a server printed.
use btle_js.Prelude.{
  ℕ, zero, suc, ◌^◌, ◌+◌, ◌≤◌, ◌<◌, ◌≡◌, ◌≢◌, ap, false, true, List, [], ◌∷◌, ◌++◌, append-nil,
  append_assoc, Option, none, some, Outcome, done, stuck, >>=-ne-stuck, ltb-false, lt→ltb,
  Bool-cases, inl, inr, ℤ, pos, below, length, length-append, All, arith,
}
use btle_js.Parse.{entries, rounds}

-- A pointer to less memory than an address can span.
abbrev pub IsSmall : Option (List ℕ) → Type 0
IsSmall none = Unit {0}
IsSmall (some p) = length p < 2 ^ 63

-- Every successful entry takes a byte, and an entry has no loop of its own.
pub record Advances {A : Type 0} (entry : List ℕ → Outcome (A × ℕ × List ℕ)) : Type 0 where
  pub moves :
      (p : List ℕ) (a : A) (n : ℕ) (next : List ℕ)
      → length p < 2 ^ 63
      → entry p ≡ done (a, n, next)
      → (0 < n) × (length next ≤ length p)
  pub ends : (p : List ℕ) → entry p ≢ stuck

module _ {A : Type 0} (entry : List ℕ → Outcome (A × ℕ × List ℕ)) (adv : Advances entry) where
  pub entries-ne-stuck :
      (fuel off : ℕ) (ptr : Option (List ℕ)) (len : ℤ) (list : List A)
      → IsSmall ptr
      → rounds len ≤ fuel + off
      → entries entry fuel off ptr len list ≢ stuck
  unfolding entries
  entries-ne-stuck zero off ptr len list s h = ground arith
  entries-ne-stuck (suc fuel) off none len list s h = ground arith
  entries-ne-stuck (suc fuel) off (some p) len list s h = elim (Bool-cases (below off len)) [
    | inl more ↦
        rw (more, entries)
          (>>=-ne-stuck (entry p) _ (adv.ends p) λ r e.
            let m = adv.moves p r.0 r.1 r.2 s e in
            entries-ne-stuck fuel (off + r.1) (some r.2) len (list ++ (r.0 ∷ [])) (omega arith)
              (omega arith))
    | inr over ↦ rw (over, entries) (λ e. cc)
  ]

module _ {A : Type 0} (entry : List ℕ → Outcome (A × ℕ × List ℕ)) where
  pub entries_over :
      (fuel off : ℕ) (ptr : Option (List ℕ)) (len : ℤ) (list : List A)
      → below off len ≡ false
      → entries entry fuel off ptr len list ≡ done list
  unfolding entries
  entries_over zero off ptr len list e = rw e
  entries_over (suc fuel) off ptr len list e = rw (e, entries)

  pub entries_more :
      (fuel off : ℕ) (p : List ℕ) (len : ℤ) (list : List A) (a : A) (n : ℕ) (next : List ℕ)
      → below off len ≡ true
      → entry p ≡ done (a, n, next)
      → entries entry (suc fuel) off (some p) len list
        ≡ entries entry fuel (off + n) (some next) len (list ++ (a ∷ []))
  unfolding entries
  entries_more fuel off p len list a n next e d = rw (e, entries, d)

module _ {A : Type 0} (print : A → List ℕ) where
  abbrev pub printed : List A → List ℕ
  printed [] = []
  printed (a ∷ r) = print a ++ printed r

module _ {A : Type 0} (entry : List ℕ → Outcome (A × ℕ × List ℕ)) (print : A → List ℕ)
    (Good : A → Type 0)
    (reads : (a : A) (rest : List ℕ)
      → Good a
      → entry (print a ++ rest) ≡ done (a, length (print a), rest))
    (nonempty : (a : A) → Good a → 0 < length (print a)) where
  -- `slack` is what the buffer holds behind the received bytes.
  pub entries-printed :
      (items : List A) (fuel off : ℕ) (slack : List ℕ) (list : List A)
      → All Good items
      → length (printed print items) ≤ fuel
      → entries entry fuel off
          (some (printed print items ++ slack))
          (pos (off + length (printed print items)))
          list
        ≡ done (list ++ items)
  unfolding entries
  entries-printed [] fuel off slack list g h = rw append-nil (
      entries_over entry fuel off (some slack) (pos (off + 0)) list
        (ltb-false off (off + 0) (omega arith)))
  entries-printed (a ∷ r) zero off slack list g h =
      absurd (omega (arith, nonempty a g.0, length-append (print a) (printed print r)))
  entries-printed (a ∷ r) (suc fuel) off slack list g h =
      let len : length (printed print (a ∷ r)) ≡ length (print a) + length (printed print r) =
        length-append (print a) (printed print r) in
      let total : off + length (printed print (a ∷ r))
          ≡ (off + length (print a)) + length (printed print r) =
        omega (arith, len) in
      rw
        (
          append_assoc (print a) (printed print r) slack,
          entries_more entry fuel off (print a ++ (printed print r ++ slack))
              (pos (off + length (printed print (a ∷ r)))) list a (length (print a))
              (printed print r ++ slack) (lt→ltb off _ (omega (arith, len, nonempty a g.0)))
              (reads a (printed print r ++ slack) g.0),
          total,
          entries-printed r fuel (off + length (print a)) slack (list ++ (a ∷ [])) g.1
              (omega (arith, len, nonempty a g.0)),
        )
        (ap done (append_assoc list (a ∷ []) r))
