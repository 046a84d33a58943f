-- ===== src/Btio/Open/Prepared.antt =====
-- The calls of `bt_io_connect` and `bt_io_listen` up to a socket that is ready to connect or to listen.
use Prim.Native.Nat.{bit_or}
use btle_js.Prelude.{
  ℕ, ◌≤◌, ◌≡◌, refl, Outcome, done, [], ◌∷◌, some, Bool, true, false, Bool-cases, inl, inr,
  if◌then◌else◌, ℤ, pos, is_neg, arith,
}
use btle_js.Options.{SetOpts}
use btle_js.Btio.{
  Protocol, Answer, ok, failed, succeeded, Event, Trace, socket, bind, get_flags, set_flags,
  Machine, pure, ◌>>=◌, all_of, succeeds,
}
use btle_js.Btio.Set.{set_options}
use btle_js.Btio.Set.Keeps.{Keeps-options}
use btle_js.Btio.Traces.{Uses}
use btle_js.Btio.Runs.{
  Returns, returns, Returns-bind, Passes, Passes-cons, Passes-nil, Keeps-Passes,
}
use btle_js.Btio.Open.Addresses.{source_address, kind_of, socket_type-eq, bind_for-eq}
use btle_js.Btio.Open.{
  socket_type, bind_socket, bind_for, add_nonblock, set_nonblock, give_up, set_up, create_with,
}

Passes-call :
    (a : Answer (Unit {0})) (event : Answer (Unit {0}) → Event) (t : Trace)
    → Passes (λ t'. t' ≡ event (ok tt) ∷ t) (done (succeeded a, event a ∷ t))
Passes-call (ok tt) event t = returns λ e. refl
Passes-call (failed n) event t = returns λ e. cc

module _ (w : Machine) where
  -- The calls before `connect` or `listen`, the latest first: the socket was made, bound, given its
  -- options by calls that are about it alone, and made non-blocking.
  pub record IsPrepared (server : Bool) (p : Protocol) (o : SetOpts) (sock : ℤ) (t t' : Trace)
      : Type 0 where
    pub flags : ℕ
    pub set : Trace
    pub last :
        t'
        ≡ set_flags sock (bit_or flags w.constants.o_nonblock) (ok tt)
          ∷ get_flags sock (ok flags)
          ∷ set
    pub uses :
        Uses sock
          (bind sock p (source_address w p server o) (ok tt) ∷ socket p (kind_of p) sock ∷ t)
          set

  abbrev NonBlocking : ℤ → Trace → Trace → Type 0
  NonBlocking sock set t' =
      (flags : ℕ) × (t'
        ≡ set_flags sock (bit_or flags w.constants.o_nonblock) (ok tt)
          ∷ get_flags sock (ok flags)
          ∷ set)

  add_nonblock-Passes :
      (sock : ℤ) (a : Answer ℕ) (set : Trace)
      → Passes (NonBlocking sock set) (add_nonblock w sock a (get_flags sock a ∷ set))
  unfolding add_nonblock ◌>>=◌
  add_nonblock-Passes sock (failed n) set = returns λ e. cc
  add_nonblock-Passes sock (ok flags) set =
      let wanted = bit_or flags w.constants.o_nonblock in
      let read = get_flags sock (ok flags) ∷ set in
      let called =
        Passes-call (w.kernel.change_flags read sock wanted) (λ a. set_flags sock wanted a) read in
      map called
    where
      map :
          {o : Outcome (Bool × Trace)}
          → Passes
              (λ t'.
                t'
                ≡ set_flags sock (bit_or flags w.constants.o_nonblock) (ok tt)
                  ∷ get_flags sock (ok flags)
                  ∷ set)
              o
          → Passes (NonBlocking sock set) o
      map (returns k) = returns λ e. (flags, k e)

  bind_for-Passes :
      (server : Bool) (p : Protocol) (o : SetOpts) (sock : ℤ) (t : Trace)
      → Passes
          (λ t'. t' ≡ bind sock p (source_address w p server o) (ok tt) ∷ t)
          (succeeds (bind_for w sock p server o) t)
  unfolding bind_socket ◌>>=◌
  bind_for-Passes server p o sock t =
      let addr = source_address w p server o in
      rw (bind_for-eq w sock p server o)
        (Passes-call (w.kernel.bind_to t sock p addr) (λ a. bind sock p addr a) t)

  module _ (h : w.bluetooth.bt_security_high ≤ 3) where
    set_up-Passes :
        (server : Bool) (p : Protocol) (o : SetOpts) (sock : ℤ) (t : Trace)
        → Passes
            (λ t'. IsPrepared server p o sock t t')
            (all_of
              (succeeds (bind_for w sock p server o)
                ∷ set_options w sock p o
                ∷ set_nonblock w sock
                ∷ [])
              (socket p (socket_type p) sock ∷ t))
    unfolding bind_socket set_nonblock ◌>>=◌
    set_up-Passes server p o sock t =
        let made = socket p (socket_type p) sock ∷ t in
        Passes-cons _ _ made (bind_for-Passes server p o sock made) λ t1 e1.
          Passes-cons _ _ t1 (Keeps-Passes (Keeps-options w h p o) t1) λ t2 u.
            Passes-cons _ _ t2 (add_nonblock-Passes sock (w.kernel.flags_of t2 sock) t2) λ t3 n.
              Passes-nil t3 (record {
                flags = n.0;
                set = t2;
                last = n.1;
                uses = rw (e1, socket_type-eq p) at u;
              })

    -- Either the socket is returned, with `Q` of the trace, or -1 is.
    decide :
        {Q : Trace → Type 0} (sock : ℤ) (b : Bool) (t : Trace)
        → (b ≡ true → Q t)
        → Returns
            (λ s t'. (n : ℕ) → s ≡ pos n → (s ≡ sock) × Q t')
            ((if b then pure sock else give_up w sock) t)
    unfolding give_up
    decide sock true t q = returns λ n e. (refl, q refl)
    decide sock false t q = returns λ n e. cc

    set_up-IsPrepared :
        (server : Bool) (p : Protocol) (o : SetOpts) (sock : ℤ) (t : Trace)
        → Returns
            (λ s t'. (n : ℕ) → s ≡ pos n → (s ≡ sock) × IsPrepared server p o sock t t')
            (set_up w sock p server o (socket p (socket_type p) sock ∷ t))
    unfolding set_up
    set_up-IsPrepared server p o sock t =
        Returns-bind _ _ (socket p (socket_type p) sock ∷ t) (set_up-Passes server p o sock t)
          λ b t' q. decide sock b t' q

    pub create-IsPrepared :
        (server : Bool) (p : Protocol) (o : SetOpts) (t : Trace)
        → Returns
            (λ s t'. (n : ℕ) → s ≡ pos n → IsPrepared server p o s t t')
            (create_with w server o (some p) t)
    unfolding create_with ◌>>=◌
    create-IsPrepared server p o t =
        let sock = w.kernel.socket_of t p (socket_type p) in
        elim (Bool-cases (is_neg sock)) [
          | inl e ↦ rw e (returns λ n k. absurd (ground arith))
          | inr e ↦ rw e (rewrap (set_up-IsPrepared server p o sock t))
        ]
      where
        rewrap :
            {sock : ℤ} {r : Outcome (ℤ × Trace)}
            → Returns (λ s t'. (n : ℕ) → s ≡ pos n → (s ≡ sock) × IsPrepared server p o sock t t') r
            → Returns (λ s t'. (n : ℕ) → s ≡ pos n → IsPrepared server p o s t t') r
        rewrap (returns k) = returns λ n e. let (same, q) = k n e in rw same q
