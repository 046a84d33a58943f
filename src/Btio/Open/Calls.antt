-- ===== src/Btio/Open/Calls.antt =====
-- Which calls stand behind a socket that `bt_io_connect` or `bt_io_listen` returned.
use btle_js.Prelude.{
  ℕ, zero, suc, ◌≤◌, ◌≡◌, refl, Outcome, done, ◌∷◌, Option, none, some, true, false, Bool-cases,
  inl, inr, ◌⊎◌, ◌||◌, if◌then◌else◌, ℤ, pos, negsuc, arith,
}
use btle_js.Options.{SetOpts}
use btle_js.Btio.{
  Protocol, Answer, ok, failed, succeeded, has_errno, Trace, connect, Machine, pure, ◌>>=◌, io_type,
}
use btle_js.Btio.Runs.{Returns, returns, Returns-bind}
use btle_js.Btio.Open.Addresses.{bt_type_of, bt_type_lem, peer_address, connect_for-eq}
use btle_js.Btio.Open.{
  is_minus_one, connect_socket, is_pending, give_up, create_with, connect_with, create_handle,
  bt_io_connect,
}
use btle_js.Btio.Open.Prepared.{IsPrepared, create-IsPrepared}

module _ (w : Machine) where
  -- The answer of `connect` is success, or an error that says that the connection is under way.
  abbrev pub IsUnderWay : Answer (Unit {0}) → Type 0
  IsUnderWay (ok x) = Unit {0}
  IsUnderWay (failed n) = (suc n ≡ w.constants.eagain) ⊎ (suc n ≡ w.constants.einprogress)

  under_way_lem :
      (a : Answer (Unit {0})) → (succeeded a || has_errno a (is_pending w)) ≡ true → IsUnderWay a
  under_way_lem (ok x) e = tt
  under_way_lem (failed n) e = ground arith

  -- The calls of a `bt_io_connect` that returned `sock`.
  pub record IsConnected (o : SetOpts) (sock : ℤ) (t t' : Trace) : Type 0 where
    pub protocol : Protocol
    pub named : o.type ≡ bt_type_of protocol
    pub earlier : Trace
    pub prepared : IsPrepared w false protocol o sock t earlier
    pub answer : Answer (Unit {0})
    pub last : t' ≡ connect sock protocol (peer_address w protocol o) answer ∷ earlier
    pub under_way : IsUnderWay answer

  abbrev Connects : SetOpts → Trace → Outcome (ℤ × Trace) → Type 0
  Connects o t run = Returns (λ s t'. (n : ℕ) → s ≡ pos n → IsConnected o s t t') run

  answered-Connects :
      (o : SetOpts) (p : Protocol) (n : ℕ) (t t1 : Trace) (a : Answer (Unit {0}))
      → io_type o.type ≡ some p
      → IsPrepared w false p o (pos n) t t1
      → Connects o t (
          (if succeeded (if has_errno a (is_pending w) then ok tt else a)
              then pure (pos n)
              else give_up w (pos n))
            (connect (pos n) p (peer_address w p o) a ∷ t1))
  unfolding give_up
  answered-Connects o p n t t1 a named q = elim (Bool-cases (has_errno a (is_pending w))) [
    | inl e ↦ rw e (returns λ m k. built (ground arith))
    | inr e ↦ rw e (elim (Bool-cases (succeeded a)) [
      | inl f ↦ rw f (returns λ m k. built (ground arith))
      | inr f ↦ rw f (returns λ m k. cc)
    ])
  ]
    where
      built :
          (succeeded a || has_errno a (is_pending w)) ≡ true
          → IsConnected o (pos n) t (connect (pos n) p (peer_address w p o) a ∷ t1)
      built u = record {
        protocol = p;
        named = bt_type_lem o.type p named;
        earlier = t1;
        prepared = q;
        answer = a;
        last = refl;
        under_way = under_way_lem a u;
      }

  connect-Connects :
      (o : SetOpts) (p : Protocol) (sock : ℤ) (t t1 : Trace)
      → io_type o.type ≡ some p
      → ((n : ℕ) → sock ≡ pos n → IsPrepared w false p o sock t t1)
      → Connects o t ((if is_minus_one sock then pure sock else connect_with w o (some p) sock) t1)
  unfolding connect_with connect_socket ◌>>=◌ give_up
  connect-Connects o p (pos n) t t1 named q = rw (connect_for-eq w (pos n) p o) (
      answered-Connects o p n t t1 (w.kernel.connect_to t1 (pos n) p (peer_address w p o)) named
        (q n refl))
  connect-Connects o p (negsuc zero) t t1 named q = returns λ n e. cc
  connect-Connects o p (negsuc (suc m)) t t1 named q =
      let a = w.kernel.connect_to t1 (negsuc (suc m)) p (peer_address w p o) in
      rw (connect_for-eq w (negsuc (suc m)) p o)
        (elim (Bool-cases (succeeded (if has_errno a (is_pending w) then ok tt else a))) [
          | inl e ↦ rw e (returns λ n k. cc)
          | inr e ↦ rw e (returns λ n k. cc)
        ])

  module _ (h : w.bluetooth.bt_security_high ≤ 3) where
    with_protocol-Connects :
        (o : SetOpts) (q : Option Protocol) (t : Trace)
        → io_type o.type ≡ q
        → Connects o t (
            (create_with w false o q >>= λ sock.
            if is_minus_one sock then pure sock else connect_with w o q sock)
              t)
    unfolding ◌>>=◌ create_with
    with_protocol-Connects o none t e = returns λ n k. cc
    with_protocol-Connects o (some p) t e =
        Returns-bind (create_with w false o (some p)) _ t (create-IsPrepared w h false p o t)
          λ sock t1 q. connect-Connects o p sock t t1 e q

    bt_io_connect-Connects : (o : SetOpts) (t : Trace) → Connects o t (bt_io_connect w o t)
    unfolding bt_io_connect create_handle
    bt_io_connect-Connects o t = with_protocol-Connects o (io_type o.type) t refl

    -- When no security level is above 3 and `bt_io_connect` returns a descriptor: it made that
    -- socket, of the protocol that the options name and of its type (a stream for RFCOMM, packets
    -- in sequence for L2CAP and SCO), bound it to the source address, for L2CAP with the channel
    -- identifier in Bluetooth's byte order or, when that is 0, with port 0 in that order, for
    -- RFCOMM with channel 0, set options by calls on that socket alone, made it non-blocking, and
    -- as its last call connected it to the destination, with the channel or with the channel
    -- identifier or else the port in Bluetooth's order, which succeeded or is under way.
    pub bt_io_connect_calls :
        (o : SetOpts) (t : Trace) (n : ℕ) {t' : Trace}
        → bt_io_connect w o t ≡ done (pos n, t')
        → IsConnected o (pos n) t t'
    bt_io_connect_calls o t n {t'} e = conclude (bt_io_connect w o t) (bt_io_connect-Connects o t) e
      where
        conclude :
            (r : Outcome (ℤ × Trace))
            → Connects o t r
            → r ≡ done (pos n, t')
            → IsConnected o (pos n) t t'
        conclude _ (returns {a} {t = u} k) e =
            let same : a ≡ pos n = ground arith in
            let last : u ≡ t' = ground arith in rw (← same) (rw (← last) (k n same))
