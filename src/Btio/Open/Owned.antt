-- ===== src/Btio/Open/Owned.antt =====
-- Which descriptors `bt_io_connect` and `bt_io_listen` leave open.
use Prim.Native.Nat.{bit_or}
use btle_js.Prelude.{
  Option, Bool-cases, inl, inr, ◌≤◌, ◌≡◌, refl, ◌∙◌, Outcome, List, [], ◌∷◌, none, some, Bool, true,
  false, if◌then◌else◌, ℤ, is_neg, arith,
}
use btle_js.Options.{SetOpts}
use btle_js.Btio.{
  Protocol, Address, Trace, socket, bind, connect, listen, get_flags, set_flags, Machine, M, pure,
  ◌>>=◌, ask, io_type, all_of, succeeds,
}
use btle_js.Btio.Set.{set_options}
use btle_js.Btio.Set.Keeps.{Keeps-options}
use btle_js.Btio.Traces.{erase-cons, erase-neg_open, open_after, open_after-Uses}
use btle_js.Btio.Runs.{
  Returns, returns, Returns-bind, Keeps, Keeps-pure, Keeps-ask, Keeps-bind, Keeps-answer,
  Keeps-succeeds, Keeps-all_nil, Keeps-all_cons,
}
use btle_js.Btio.Open.Addresses.{bind_for-eq, connect_for-eq}
use btle_js.Btio.Open.{
  is_minus_one, socket_type, bind_socket, bind_for, connect_socket, connect_for, set_nonblock,
  give_up, set_up, create_with, connect_with, create_handle, listen_on_socket, bt_io_connect,
  bt_io_listen,
}

-- The descriptor that a function returned, in front of those that were open before.
abbrev pub owned : ℤ → List ℤ → List ℤ
owned sock before = if is_neg sock then before else sock ∷ before

-- The run ends, and leaves open what was, and the descriptor that it returns.
abbrev pub IsTight : List ℤ → Outcome (ℤ × Trace) → Type 0
IsTight before run = Returns (λ sock t'. open_after t' ≡ owned sock before) run

module _ (w : Machine) (h : w.bluetooth.bt_security_high ≤ 3) where
  Keeps-bind_socket :
      {sock : ℤ} (p : Protocol) (addr : Address p) → Keeps sock (bind_socket w sock p addr)
  unfolding bind_socket
  Keeps-bind_socket {sock} p addr = Keeps-ask _ (λ a. bind sock p addr a) λ a. refl

  Keeps-connect_socket :
      {sock : ℤ} (p : Protocol) (addr : Address p) → Keeps sock (connect_socket w sock p addr)
  unfolding connect_socket
  Keeps-connect_socket {sock} p addr =
      Keeps-bind _ _ (Keeps-ask _ (λ a. connect sock p addr a) λ a. refl) λ a. Keeps-pure _

  Keeps-nonblock : {sock : ℤ} → Keeps sock (set_nonblock w sock)
  unfolding set_nonblock
  Keeps-nonblock {sock} = Keeps-bind _ _ (Keeps-ask _ (λ a. get_flags sock a) λ a. refl) (
      Keeps-answer _
        (λ flags.
          Keeps-succeeds
            (Keeps-ask _ (λ a. set_flags sock (bit_or flags w.constants.o_nonblock) a) λ a. refl))
        (λ _. Keeps-pure false))

  -- Closing the socket leaves what was open before it was made.
  give_up-IsTight :
      (sock : ℤ) (before : List ℤ) (t : Trace)
      → open_after t ≡ owned sock before
      → IsTight before (give_up w sock t)
  unfolding give_up
  give_up-IsTight sock before t e = elim (Bool-cases (is_neg sock)) [
    | inl n ↦ returns (ground (arith, erase-neg_open sock t))
    | inr n ↦ returns (ground (arith, erase-cons sock before))
  ]

  -- A step about the socket that either keeps it or gives it up.
  keep_or_give_up :
      (b : Bool) (sock : ℤ) (before : List ℤ) (t : Trace)
      → open_after t ≡ owned sock before
      → IsTight before ((if b then pure sock else give_up w sock) t)
  keep_or_give_up true sock before t e = returns e
  keep_or_give_up false sock before t e = give_up-IsTight sock before t e

  pub Keeps-connect_for :
      {sock : ℤ} (p : Protocol) (o : SetOpts) → Keeps sock (connect_for w sock p o)
  Keeps-connect_for {sock} p o = rw (connect_for-eq w sock p o) (Keeps-connect_socket p _)

  Keeps-bind_for :
      {sock : ℤ} (p : Protocol) (server : Bool) (o : SetOpts)
      → Keeps sock (bind_for w sock p server o)
  Keeps-bind_for {sock} p server o = rw (bind_for-eq w sock p server o) (Keeps-bind_socket p _)

  pub Keeps-set_up :
      (sock : ℤ) (p : Protocol) (server : Bool) (o : SetOpts)
      → Keeps sock (
          all_of (
            succeeds (bind_for w sock p server o)
            ∷ set_options w sock p o
            ∷ set_nonblock w sock
            ∷ []))
  Keeps-set_up sock p server o =
      Keeps-all_cons _ (Keeps-succeeds (Keeps-bind_for p server o))
        (Keeps-all_cons _ (Keeps-options w h p o) (Keeps-all_cons _ Keeps-nonblock Keeps-all_nil))

  set_up-IsTight :
      (sock : ℤ) (p : Protocol) (server : Bool) (o : SetOpts) (before : List ℤ) (t : Trace)
      → open_after t ≡ owned sock before
      → IsTight before (set_up w sock p server o t)
  unfolding set_up
  set_up-IsTight sock p server o before t e =
      Returns-bind _ _ t ((Keeps-set_up sock p server o).runs t)
        λ passed t' u. keep_or_give_up passed sock before t' (open_after-Uses u ∙ e)

  create_with-IsTight :
      (server : Bool) (o : SetOpts) (q : Option Protocol) (t : Trace)
      → IsTight (open_after t) (create_with w server o q t)
  unfolding create_with ◌>>=◌
  create_with-IsTight server o none t = returns refl
  create_with-IsTight server o (some p) t =
      let sock = w.kernel.socket_of t p (socket_type p) in
      let made = socket p (socket_type p) sock ∷ t in
      elim (Bool-cases (is_neg sock)) [
        | inl n ↦ rw n (returns (rw n refl))
        | inr n ↦ rw n (set_up-IsTight sock p server o (open_after t) made refl)
      ]

  connect_with-IsTight :
      (o : SetOpts) (p : Protocol) (sock : ℤ) (before : List ℤ) (t : Trace)
      → open_after t ≡ owned sock before
      → IsTight before (connect_with w o (some p) sock t)
  unfolding connect_with
  connect_with-IsTight o p sock before t e =
      Returns-bind _ _ t ((Keeps-connect_for p o).runs t)
        λ a t' u. keep_or_give_up _ sock before t' (open_after-Uses u ∙ e)

  listen_on-IsTight :
      (sock : ℤ) (before : List ℤ) (t : Trace)
      → open_after t ≡ owned sock before
      → IsTight before (listen_on_socket w sock t)
  unfolding listen_on_socket
  listen_on-IsTight sock before t e =
      let called : Keeps sock (ask (λ t. w.kernel.listen_on t sock 5) (λ a. listen sock 5 a)) =
        Keeps-ask _ (λ a. listen sock 5 a) λ a. refl in
      Returns-bind _ _ t (called.runs t)
        λ a t' u. keep_or_give_up _ sock before t' (open_after-Uses u ∙ e)

  unless_failed :
      (f : ℤ → M ℤ) (sock : ℤ) (before : List ℤ) (t : Trace)
      → open_after t ≡ owned sock before
      → IsTight before (f sock t)
      → IsTight before ((if is_minus_one sock then pure sock else f sock) t)
  unless_failed f sock before t e k = elim (Bool-cases (is_minus_one sock)) [
    | inl m ↦ rw m (returns e)
    | inr m ↦ rw m k
  ]

  connect_either :
      (o : SetOpts) (q : Option Protocol) (t : Trace)
      → IsTight (open_after t) (
          (create_with w false o q >>= λ sock.
          if is_minus_one sock then pure sock else connect_with w o q sock)
            t)
  unfolding ◌>>=◌ create_with
  connect_either o none t = returns refl
  connect_either o (some p) t =
      Returns-bind (create_with w false o (some p)) _ t (create_with-IsTight false o (some p) t)
        λ sock t' e.
          unless_failed (connect_with w o (some p)) sock (open_after t) t' e
            (connect_with-IsTight o p sock (open_after t) t' e)

  -- When no security level is above 3, whatever the options and the answers of the kernel:
  -- `bt_io_connect` and `bt_io_listen` end, and leave open the descriptor that they return, if they
  -- return one, and what was open before.
  pub leaves_open :
      (o : SetOpts) (t : Trace)
      → IsTight (open_after t) (bt_io_connect w o t) × IsTight (open_after t) (bt_io_listen w o t)
  unfolding bt_io_connect bt_io_listen create_handle
  leaves_open o t = (
    connect_either o (io_type o.type) t,
    Returns-bind _ _ t (create_with-IsTight true o (io_type o.type) t) λ sock t' e.
        unless_failed (listen_on_socket w) sock (open_after t) t' e
          (listen_on-IsTight sock (open_after t) t' e),
  )
