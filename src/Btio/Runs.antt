-- ===== src/Btio/Runs.antt =====
-- Runs of the socket functions that end, and rules for them.
use btle_js.Prelude.{
  ℕ, ◌≡◌, refl, Outcome, done, fault, stuck, List, [], ◌∷◌, Option, none, some, Bool, true, false,
  if◌then◌else◌, ℤ,
}
use btle_js.Btio.{
  Event, Trace, Answer, ok, failed, succeeded, M, pure, ◌>>=◌, ask, all_of, only_if, succeeds,
}
use btle_js.Btio.Traces.{subject, Uses, start, also, Uses-trans}

-- The run ends, with a result and a trace that satisfy `P`.
pub data Returns {A : Type 0} (P : A → Trace → Type 0) : Outcome (A × Trace) → Type 0 where
  returns : {a : A} {t : Trace} → P a t → Returns P (done (a, t))

pub Returns-and :
    {A : Type 0} {P Q : A → Trace → Type 0} {r : Outcome (A × Trace)}
    → Returns P r
    → Returns Q r
    → Returns (λ a t. P a t × Q a t) r
Returns-and (returns p) (returns q) = returns (p, q)

-- The run ends, and made calls about `sock` alone.
pub record Keeps (sock : ℤ) {A : Type 0} (m : M A) : Type 0 where
  pub runs : (t : Trace) → Returns (λ _ t'. Uses sock t t') (m t)

module _ {A B : Type 0} {P : A → Trace → Type 0} {Q : B → Trace → Type 0} where
  pub Returns-bind :
      (m : M A) (f : A → M B) (t : Trace)
      → Returns P (m t)
      → ((a : A) (t' : Trace) → P a t' → Returns Q (f a t'))
      → Returns Q ((m >>= f) t)
  unfolding ◌>>=◌
  Returns-bind m f t r k = after (m t) r
    where
      after :
          (o : Outcome (A × Trace))
          → Returns P o
          → Returns Q (elim o [ done (a, t') ↦ f a t' | fault ↦ fault | stuck ↦ stuck ])
      after _ (returns {a} {t} p) = k a t p

module _ {sock : ℤ} where
  pub Keeps-pure : {A : Type 0} (a : A) → Keeps sock (pure a)
  Keeps-pure a = record { runs = λ t. returns start }

  pub Keeps-ask :
      {A : Type 0} (answer : Trace → A) (event : A → Event)
      → ((a : A) → subject (event a) ≡ some sock)
      → Keeps sock (ask answer event)
  Keeps-ask answer event h = record {
    runs = λ t. returns (also start (event (answer t)) (h (answer t)));
  }

  pub Keeps-bind :
      {A B : Type 0} (m : M A) (f : A → M B)
      → Keeps sock m
      → ((a : A) → Keeps sock (f a))
      → Keeps sock (m >>= f)
  Keeps-bind m f k l = record {
    runs = λ t. Returns-bind m f t (k.runs t) λ a t' u. extend u ((l a).runs t');
  }
    where
      extend :
          {C : Type 0} {o : Outcome (C × Trace)} {t t' : Trace}
          → Uses sock t t'
          → Returns (λ _ t''. Uses sock t' t'') o
          → Returns (λ _ t''. Uses sock t t'') o
      extend u (returns v) = returns (Uses-trans u v)

  pub Keeps-answer :
      {A B : Type 0} (f : Answer A → M B)
      → ((x : A) → Keeps sock (f (ok x)))
      → ((n : ℕ) → Keeps sock (f (failed n)))
      → (a : Answer A) → Keeps sock (f a)
  Keeps-answer f k l (ok x) = k x
  Keeps-answer f k l (failed n) = l n

  pub Keeps-option :
      {A B : Type 0} (f : Option A → M B)
      → Keeps sock (f none)
      → ((x : A) → Keeps sock (f (some x)))
      → (a : Option A) → Keeps sock (f a)
  Keeps-option f k l none = k
  Keeps-option f k l (some x) = l x

  pub Keeps-if :
      {A : Type 0} (b : Bool) {m n : M A}
      → Keeps sock m
      → Keeps sock n
      → Keeps sock (if b then m else n)
  Keeps-if true k l = k
  Keeps-if false k l = l

  pub Keeps-only_if : (b : Bool) {m : M Bool} → Keeps sock m → Keeps sock (only_if b m)
  Keeps-only_if b k = Keeps-if b k (Keeps-pure true)

  pub Keeps-succeeds : {A : Type 0} {m : M (Answer A)} → Keeps sock m → Keeps sock (succeeds m)
  Keeps-succeeds {m} k = Keeps-bind m _ k λ a. Keeps-pure (succeeded a)

  -- As `Keeps-if`, for a branch that is right only where the test holds.
  pub Keeps-when :
      {A : Type 0} (b : Bool) {m n : M A}
      → (b ≡ true → Keeps sock m)
      → Keeps sock n
      → Keeps sock (if b then m else n)
  Keeps-when true k l = k refl
  Keeps-when false k l = l

  pub Keeps-all_nil : Keeps sock (all_of [])
  unfolding all_of
  Keeps-all_nil = Keeps-pure true

  pub Keeps-all_cons :
      {m : M Bool} (ms : List (M Bool))
      → Keeps sock m
      → Keeps sock (all_of ms)
      → Keeps sock (all_of (m ∷ ms))
  unfolding all_of
  Keeps-all_cons {m} ms k l = Keeps-bind m _ k λ passed. Keeps-if passed l (Keeps-pure false)

-- The run ends, and `Q` holds of the trace if its result is true.
abbrev pub Passes : (Trace → Type 0) → Outcome (Bool × Trace) → Type 0
Passes Q run = Returns (λ b t'. b ≡ true → Q t') run

module _ {Q R : Trace → Type 0} where
  pub Passes-cons :
      (m : M Bool) (ms : List (M Bool)) (t : Trace)
      → Passes Q (m t)
      → ((t' : Trace) → Q t' → Passes R (all_of ms t'))
      → Passes R (all_of (m ∷ ms) t)
  unfolding all_of
  Passes-cons m ms t r k = Returns-bind m _ t r step
    where
      step :
          (b : Bool) (t' : Trace)
          → (b ≡ true → Q t')
          → Passes R ((if b then all_of ms else pure false) t')
      step true t' q = k t' (q refl)
      step false t' q = returns λ e. cc

pub Passes-nil : {Q : Trace → Type 0} (t : Trace) → Q t → Passes Q (all_of [] t)
unfolding all_of
Passes-nil t q = returns λ e. q

pub Keeps-Passes :
    {sock : ℤ} {m : M Bool} → Keeps sock m → (t : Trace) → Passes (λ t'. Uses sock t t') (m t)
Keeps-Passes {m} k t = weaken (m t) (k.runs t)
  where
    weaken :
        {P : Trace → Type 0} (o : Outcome (Bool × Trace)) → Returns (λ _ t'. P t') o → Passes P o
    weaken _ (returns p) = returns λ e. p
