-- ===== src/Btio/Open/Users.antt =====
-- `Connection::connect` of src/connection.cc over `bt_io_connect`.
use btle_js.Prelude.{
  ℕ, zero, suc, ◌≤◌, ◌≡◌, ◌⊎◌, refl, Outcome, done, [], ◌∷◌, Option, none, some, Bool, true, false,
  Bool-cases, inl, inr, if◌then◌else◌, ℤ, pos, negsuc, is_neg, arith,
}
use btle_js.Options.{SetOpts}
use btle_js.Connection.{Connection, throws, returns, poll_start}
use btle_js.Connection
use btle_js.Btio.{Protocol, SocketType, Trace, socket, Machine, pure, ◌>>=◌, io_type}
use btle_js.Btio.Traces.{open_after}
use btle_js.Btio.Runs.{Returns, Returns-bind, Returns-and, Keeps}
use btle_js.Btio.Runs
use btle_js.Btio.Open.{
  is_minus_one, socket_type, give_up, set_up, create_with, connect_with, create_handle,
  bt_io_connect,
}
use btle_js.Btio.Open.Owned.{owned, leaves_open, Keeps-set_up, Keeps-connect_for}

-- The only negative descriptor is -1.
abbrev IsResult : ℤ → Type 0
IsResult sock = (is_neg sock ≡ true) → sock ≡ negsuc 0

-- Either `connect` throws and nothing is left open, or it polls the one new descriptor.
abbrev pub Outcomes : Connection → ℕ → ℕ → ℕ → Trace → ℤ → Trace → Type 0
Outcomes c errno callback data_ptr t sock t' =
    ((Connection.connect c sock errno callback data_ptr
        ≡ throws (record c { sock = negsuc 0 }) errno)
      × (open_after t' ≡ open_after t))
    ⊎ ((n : ℕ) × (c' : Connection) × (Connection.connect c sock errno callback data_ptr
          ≡ returns c' (poll_start (pos n) ∷ []))
        × (c'.sock ≡ pos n)
        × (open_after t' ≡ pos n ∷ open_after t))

module _ (w : Machine) (h : w.bluetooth.bt_security_high ≤ 3)
    (answers : (t : Trace) (p : Protocol) (kind : SocketType)
      → is_neg (w.kernel.socket_of t p kind) ≡ true
      → w.kernel.socket_of t p kind ≡ negsuc 0) where
  keep-IsResult :
      (b : Bool) (sock : ℤ) (t : Trace)
      → IsResult sock
      → Returns (λ s _. IsResult s) ((if b then pure sock else give_up w sock) t)
  unfolding give_up
  keep-IsResult true sock t r = Runs.returns r
  keep-IsResult false sock t r = Runs.returns λ e. refl

  set_up-IsResult :
      (sock : ℤ) (p : Protocol) (server : Bool) (o : SetOpts) (t : Trace)
      → IsResult sock
      → Returns (λ s _. IsResult s) (set_up w sock p server o t)
  unfolding set_up
  set_up-IsResult sock p server o t r =
      Returns-bind _ _ t ((Keeps-set_up w h sock p server o).runs t)
        λ passed t' _. keep-IsResult passed sock t' r

  create-IsResult :
      (server : Bool) (o : SetOpts) (q : Option Protocol) (t : Trace)
      → Returns (λ s _. IsResult s) (create_with w server o q t)
  unfolding create_with ◌>>=◌
  create-IsResult server o none t = Runs.returns λ e. refl
  create-IsResult server o (some p) t =
      let sock = w.kernel.socket_of t p (socket_type p) in
      elim (Bool-cases (is_neg sock)) [
        | inl n ↦ rw n (Runs.returns (answers t p (socket_type p)))
        | inr n ↦ rw n (
            set_up-IsResult sock p server o (socket p (socket_type p) sock ∷ t)
              (answers t p (socket_type p)))
      ]

  connect-IsResult :
      (o : SetOpts) (q : Option Protocol) (sock : ℤ) (t : Trace)
      → IsResult sock
      → Returns (λ s _. IsResult s) (connect_with w o q sock t)
  unfolding connect_with
  connect-IsResult o none sock t r = Runs.returns λ e. refl
  connect-IsResult o (some p) sock t r =
      Returns-bind _ _ t ((Keeps-connect_for w h p o).runs t) λ a t' _. keep-IsResult _ sock t' r

  bt_io_connect-IsResult :
      (o : SetOpts) (t : Trace) → Returns (λ s _. IsResult s) (bt_io_connect w o t)
  unfolding bt_io_connect create_handle
  bt_io_connect-IsResult o t =
      Returns-bind _ _ t (create-IsResult false o (io_type o.type) t) λ sock t' r.
        elim (Bool-cases (is_minus_one sock)) [
          | inl m ↦ rw m (Runs.returns r)
          | inr m ↦ rw m (connect-IsResult o (io_type o.type) sock t' r)
        ]

  outcomes :
      (c : Connection) (errno callback data_ptr : ℕ) (t t' : Trace) (sock : ℤ)
      → IsResult sock
      → open_after t' ≡ owned sock (open_after t)
      → Outcomes c errno callback data_ptr t sock t'
  unfolding Connection.connect
  outcomes c errno callback data_ptr t t' (pos n) r e = inr (n, _, refl, refl, e)
  outcomes c errno callback data_ptr t t' (negsuc zero) r e = inl (refl, e)
  outcomes c errno callback data_ptr t t' (negsuc (suc m)) r e = absurd (ground (arith, r refl))

  -- When no security level is above 3 and `socket` answers with a descriptor or with -1, whatever
  -- the options and the other answers of the kernel: `bt_io_connect` ends, and with its result
  -- `Connection::connect` either throws, and the descriptors that were open are open, or polls a
  -- descriptor that was opened besides them and that the connection keeps.
  pub connect_opens :
      (c : Connection) (o : SetOpts) (errno callback data_ptr : ℕ) (t : Trace)
      → (sock : ℤ) × (t' : Trace) × (bt_io_connect w o t ≡ done (sock, t'))
        × Outcomes c errno callback data_ptr t sock t'
  connect_opens c o errno callback data_ptr t =
      conclude (bt_io_connect w o t)
        (Returns-and (leaves_open w h o t).0 (bt_io_connect-IsResult o t))
    where
      conclude :
          (r : Outcome (ℤ × Trace))
          → Returns (λ s t'. (open_after t' ≡ owned s (open_after t)) × IsResult s) r
          → (sock : ℤ) × (t' : Trace) × (r ≡ done (sock, t'))
            × Outcomes c errno callback data_ptr t sock t'
      conclude _ (Runs.returns {a} {t = t'} p) =
          (a, t', refl, outcomes c errno callback data_ptr t t' a p.1 p.0)
