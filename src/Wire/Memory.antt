-- ===== src/Wire/Memory.antt =====
-- Loads and stores on a list of bytes, with the lemmas for a buffer that is filled from the front.
use btle_js.Prelude.{
  ℕ, zero, suc, ◌+◌, ◌≤◌, ◌<◌, ◌≡◌, ◌≢◌, refl, List, [], ◌∷◌, ◌++◌, Option, none, some, Outcome,
  done, fault, stuck, if◌then◌else◌, leb, leb-true, leb-false, length, take, drop, take-append,
  drop-append, append_assoc, length-append, length-take, length-drop, arith,
}
use native.Mathlib.Nat.{zero-add}

-- The first `n` bytes behind a pointer, and the pointer past them.
unfoldable pub load_bytes : Option (List ℕ) → ℕ → Outcome (List ℕ × List ℕ)
load_bytes none n = fault
load_bytes (some ptr) n = if leb n (length ptr) then done (take n ptr, drop n ptr) else fault

unfoldable pub write_at : List ℕ → ℕ → List ℕ → Outcome (List ℕ)
write_at buffer off bytes =
    if leb (off + length bytes) (length buffer)
    then done (take off buffer ++ (bytes ++ drop (off + length bytes) buffer))
    else fault

pub load_bytes-append :
    (bytes rest : List ℕ) (n : ℕ)
    → length bytes ≡ n
    → load_bytes (some (bytes ++ rest)) n ≡ done (bytes, rest)
unfolding load_bytes
load_bytes-append bytes rest n e = rw (
  ← e,
  leb-true (length bytes) (length (bytes ++ rest)) (omega (arith, length-append bytes rest)),
  take-append bytes rest,
  drop-append bytes rest,
)

pub load_bytes_short : (ptr : List ℕ) (n : ℕ) → length ptr < n → load_bytes (some ptr) n ≡ fault
unfolding load_bytes
load_bytes_short ptr n h = rw (leb-false n (length ptr) h)

drop-add : (n k : ℕ) (xs ys : List ℕ) → k ≡ length xs + n → drop k (xs ++ ys) ≡ drop n ys
drop-add n k [] ys e = rw (e, zero-add)
drop-add n zero (x ∷ xs) ys e = absurd (omega arith)
drop-add n (suc k) (x ∷ xs) ys e = drop-add n k xs ys (omega arith)

-- A store right behind what has been written.
pub write_at_next :
    (pre rest bytes : List ℕ) (off : ℕ)
    → off ≡ length pre
    → length bytes ≤ length rest
    → write_at (pre ++ rest) off bytes ≡ done ((pre ++ bytes) ++ drop (length bytes) rest)
unfolding write_at
write_at_next pre rest bytes off e h = rw (
  e,
  leb-true (length pre + length bytes) (length (pre ++ rest))
      (omega (arith, length-append pre rest)),
  take-append pre rest,
  drop-add (length bytes) (length pre + length bytes) pre rest refl,
  append_assoc pre bytes (drop (length bytes) rest),
)

pub write_at_past :
    (buffer bytes : List ℕ) (off : ℕ)
    → length buffer < off + length bytes
    → write_at buffer off bytes ≡ fault
unfolding write_at
write_at_past buffer bytes off h = rw (leb-false (off + length bytes) (length buffer) h)

pub length-write_at :
    (buffer bytes : List ℕ) (off : ℕ) {after : List ℕ}
    → write_at buffer off bytes ≡ done after
    → length after ≡ length buffer
unfolding write_at
length-write_at buffer bytes off e = ground (
  arith,
  length-append (take off buffer) (bytes ++ drop (off + length bytes) buffer),
  length-append bytes (drop (off + length bytes) buffer),
  length-take off buffer,
  length-drop (off + length bytes) buffer,
)

pub load_bytes-ne-stuck : (ptr : Option (List ℕ)) (n : ℕ) → load_bytes ptr n ≢ stuck
unfolding load_bytes
load_bytes-ne-stuck none n = λ e. cc
load_bytes-ne-stuck (some p) n = λ e. ground arith

pub load_bytes-take :
    (ptr : List ℕ) (n : ℕ)
    → n ≤ length ptr
    → load_bytes (some ptr) n ≡ done (take n ptr, drop n ptr)
unfolding load_bytes
load_bytes-take ptr n h = rw (leb-true n (length ptr) h)

pub load_bytes_moves :
    (p bytes next : List ℕ) (n : ℕ)
    → load_bytes (some p) n ≡ done (bytes, next)
    → (length bytes ≡ n) × (length next + n ≡ length p)
unfolding load_bytes
load_bytes_moves p bytes next n e = ground (arith, length-take n p, length-drop n p)
