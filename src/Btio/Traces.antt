-- ===== src/Btio/Traces.antt =====
-- What a run of the socket functions leaves behind: its calls, and the descriptors that are open.
use btle_js.Prelude.{
  All, Bool-cases, inl, inr, ◌≡◌, refl, List, [], ◌∷◌, Option, none, some, true, false,
  if◌then◌else◌, ℤ, is_neg, same, arith,
}
use btle_js.Btio.{
  Event, Trace, socket, bind, connect, listen, getsockopt, setsockopt, getsockname, getpeername,
  get_flags, set_flags, poll_out, read_byte, close,
}

-- The socket that a call is about, unless it makes or closes one.
abbrev pub subject : Event → Option ℤ
subject (socket p kind sock) = none
subject (close sock) = none
subject (bind sock p addr a) = some sock
subject (connect sock p addr a) = some sock
subject (listen sock backlog a) = some sock
subject (getsockopt sock n a) = some sock
subject (setsockopt sock n v a) = some sock
subject (getsockname sock p a) = some sock
subject (getpeername sock p a) = some sock
subject (get_flags sock a) = some sock
subject (set_flags sock flags a) = some sock
subject (poll_out sock a) = some sock
subject (read_byte sock a) = some sock

-- The later trace has calls about `sock` on top of the earlier one, and no others.
pub data Uses (sock : ℤ) (t : Trace) : Trace → Type 0 where
  start : Uses sock t t
  also : {t' : Trace} → Uses sock t t' → (e : Event) → subject e ≡ some sock → Uses sock t (e ∷ t')

abbrev pub erase : ℤ → List ℤ → List ℤ
erase sock [] = []
erase sock (x ∷ xs) = if same x sock then xs else x ∷ erase sock xs

-- The descriptors that are open after the events, the last opened first.
abbrev pub open_after : Trace → List ℤ
open_after [] = []
open_after (socket p kind sock ∷ t) = if is_neg sock then open_after t else sock ∷ open_after t
open_after (close sock ∷ t) = erase sock (open_after t)
open_after (_ ∷ t) = open_after t

pub erase-cons : (sock : ℤ) (xs : List ℤ) → erase sock (sock ∷ xs) ≡ xs
erase-cons sock xs = ground arith

-- A descriptor is no negative number, and to close one closes nothing.
erase-All :
    (sock : ℤ) (xs : List ℤ)
    → All (λ x. is_neg x ≡ false) xs
    → All (λ x. is_neg x ≡ false) (erase sock xs)
erase-All sock [] h = tt
erase-All sock (x ∷ xs) h = elim (Bool-cases (same x sock)) [
  | inl e ↦ rw e h.1
  | inr e ↦ rw e (h.0, erase-All sock xs h.1)
]

open_after-All : (t : Trace) → All (λ x. is_neg x ≡ false) (open_after t)
open_after-All [] = tt
open_after-All (socket p kind sock ∷ t) = elim (Bool-cases (is_neg sock)) [
  | inl e ↦ rw e (open_after-All t)
  | inr e ↦ rw e (e, open_after-All t)
]
open_after-All (close sock ∷ t) = erase-All sock (open_after t) (open_after-All t)
open_after-All (_ ∷ t) = open_after-All t

erase-neg :
    (sock : ℤ) (xs : List ℤ)
    → is_neg sock ≡ true
    → All (λ x. is_neg x ≡ false) xs
    → erase sock xs ≡ xs
erase-neg sock [] n h = refl
erase-neg sock (x ∷ xs) n h = ground (arith, erase-neg sock xs n h.1)

pub erase-neg_open :
    (sock : ℤ) (t : Trace) → is_neg sock ≡ true → erase sock (open_after t) ≡ open_after t
erase-neg_open sock t n = erase-neg sock (open_after t) n (open_after-All t)

module _ {sock : ℤ} where
  open_after-cons :
      (e : Event) (t : Trace) → subject e ≡ some sock → open_after (e ∷ t) ≡ open_after t
  open_after-cons (socket p kind s) t h = ground arith
  open_after-cons (close s) t h = ground arith
  open_after-cons (bind s p addr a) t h = refl
  open_after-cons (connect s p addr a) t h = refl
  open_after-cons (listen s backlog a) t h = refl
  open_after-cons (getsockopt s n a) t h = refl
  open_after-cons (setsockopt s n v a) t h = refl
  open_after-cons (getsockname s p a) t h = refl
  open_after-cons (getpeername s p a) t h = refl
  open_after-cons (get_flags s a) t h = refl
  open_after-cons (set_flags s flags a) t h = refl
  open_after-cons (poll_out s a) t h = refl
  open_after-cons (read_byte s a) t h = refl

  pub open_after-Uses : {t t' : Trace} → Uses sock t t' → open_after t' ≡ open_after t
  open_after-Uses start = refl
  open_after-Uses (also {t'} u e h) = ground (arith, open_after-cons e t' h, open_after-Uses u)

  pub Uses-trans : {t t' t'' : Trace} → Uses sock t t' → Uses sock t' t'' → Uses sock t t''
  Uses-trans u start = u
  Uses-trans u (also v e h) = also (Uses-trans u v) e h
