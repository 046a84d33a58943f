-- ===== src/Btio/Open.antt =====
-- src/btio.c: making, connecting and listening on a socket.
pub mod Addresses
pub mod Owned
pub mod Prepared
pub mod Calls
pub mod Users
use Prim.Native.Nat.{bit_or}
use btle_js.Prelude.{
  ℕ, zero, suc, [], ◌∷◌, Option, none, some, Bool, true, false, ◌||◌, ◌==◌, if◌then◌else◌, ℤ, pos,
  negsuc, is_neg,
}
use btle_js.Options.{SetOpts}
use btle_js.Btio.{
  Protocol, l2cap, rfcomm, sco, io_type, SocketType, seqpacket, stream, SockaddrL2, SockaddrRc,
  SockaddrSco, Address, Answer, ok, failed, succeeded, has_errno, socket, bind, connect, listen,
  get_flags, set_flags, close, Machine, M, pure, ◌>>=◌, ask, all_of, succeeds,
}
use btle_js.Btio.Set.{set_options}

-- The type of socket that `create_handle` asks for.
abbrev pub socket_type : Protocol → SocketType
socket_type rfcomm = stream
socket_type _ = seqpacket

abbrev pub is_minus_one : ℤ → Bool
is_minus_one (negsuc zero) = true
is_minus_one _ = false

module _ (w : Machine) where
  -- The address that `l2cap_bind` and `l2cap_connect` fill in.
  abbrev pub l2_address : ℕ → ℕ → ℕ → ℕ → SockaddrL2
  l2_address bdaddr type psm cid = record {
    bdaddr = bdaddr;
    bdaddr_type = type;
    psm = if cid == 0 then w.host.htobs psm else 0;
    cid = if cid == 0 then 0 else w.host.htobs cid;
  }

  unfoldable pub bind_socket : ℤ → (p : Protocol) → Address p → M (Answer (Unit {0}))
  bind_socket sock p addr = ask (λ t. w.kernel.bind_to t sock p addr) (λ a. bind sock p addr a)

  unfoldable pub l2cap_bind : ℤ → ℕ → ℕ → ℕ → ℕ → M (Answer (Unit {0}))
  unfolding bind_socket
  l2cap_bind sock src src_type psm cid = bind_socket sock l2cap (l2_address src src_type psm cid)

  unfoldable pub rfcomm_bind : ℤ → ℕ → ℕ → M (Answer (Unit {0}))
  unfolding bind_socket
  rfcomm_bind sock src channel =
      bind_socket sock rfcomm (record { bdaddr = src; channel = channel })

  unfoldable pub sco_bind : ℤ → ℕ → M (Answer (Unit {0}))
  unfolding bind_socket
  sco_bind sock src = bind_socket sock sco (record { bdaddr = src })

  -- The `…_bind` of `create_handle`. A client's port is 0.
  pub bind_for : ℤ → Protocol → Bool → SetOpts → M (Answer (Unit {0}))
  unfolding l2cap_bind rfcomm_bind sco_bind
  bind_for sock l2cap server o =
      l2cap_bind sock o.src o.src_type (if server then o.psm else 0) o.cid
  bind_for sock rfcomm server o = rfcomm_bind sock o.src (if server then o.channel else 0)
  bind_for sock sco server o = sco_bind sock o.src

  -- EAGAIN or EINPROGRESS
  abbrev pub is_pending : ℕ → Bool
  is_pending e = e == w.constants.eagain || e == w.constants.einprogress

  -- The functions `…_connect`: a connection that is under way is no error.
  unfoldable pub connect_socket : ℤ → (p : Protocol) → Address p → M (Answer (Unit {0}))
  connect_socket sock p addr = do
    a ← ask (λ t. w.kernel.connect_to t sock p addr) (λ a. connect sock p addr a)
    pure (if has_errno a is_pending then ok tt else a)

  unfoldable pub l2cap_connect : ℤ → ℕ → ℕ → ℕ → ℕ → M (Answer (Unit {0}))
  unfolding connect_socket
  l2cap_connect sock dst dst_type psm cid =
      connect_socket sock l2cap (l2_address dst dst_type psm cid)

  unfoldable pub rfcomm_connect : ℤ → ℕ → ℕ → M (Answer (Unit {0}))
  unfolding connect_socket
  rfcomm_connect sock dst channel =
      connect_socket sock rfcomm (record { bdaddr = dst; channel = channel })

  unfoldable pub sco_connect : ℤ → ℕ → M (Answer (Unit {0}))
  unfolding connect_socket
  sco_connect sock dst = connect_socket sock sco (record { bdaddr = dst })

  -- The `…_connect` of `bt_io_connect`.
  pub connect_for : ℤ → Protocol → SetOpts → M (Answer (Unit {0}))
  unfolding l2cap_connect rfcomm_connect sco_connect
  connect_for sock l2cap o = l2cap_connect sock o.dst o.dst_type o.psm o.cid
  connect_for sock rfcomm o = rfcomm_connect sock o.dst o.channel
  connect_for sock sco o = sco_connect sock o.dst

  add_nonblock : ℤ → Answer ℕ → M Bool
  add_nonblock sock (failed n) = pure false
  add_nonblock sock (ok flags) =
      let wanted = bit_or flags w.constants.o_nonblock in
      succeeds (ask (λ t. w.kernel.change_flags t sock wanted) (λ a. set_flags sock wanted a))

  -- The two calls of `fcntl`.
  pub set_nonblock : ℤ → M Bool
  unfolding add_nonblock
  set_nonblock sock =
      ask (λ t. w.kernel.flags_of t sock) (λ a. get_flags sock a) >>= add_nonblock sock

  -- `close(sock); return -1;`
  unfoldable pub give_up : ℤ → M ℤ
  give_up sock = λ t. pure (negsuc 0) (close sock ∷ t)

  -- What follows the call of `socket`.
  set_up : ℤ → Protocol → Bool → SetOpts → M ℤ
  unfolding bind_for set_options set_nonblock give_up
  set_up sock p server o = do
    passed ←
        all_of
          (succeeds (bind_for sock p server o) ∷ set_options w sock p o ∷ set_nonblock sock ∷ [])
    if passed then pure sock else give_up sock

  pub create_with : Bool → SetOpts → Option Protocol → M ℤ
  unfolding set_up
  create_with server o none = pure (negsuc 0)
  create_with server o (some p) =
      ask (λ t. w.kernel.socket_of t p (socket_type p)) (λ sock. socket p (socket_type p) sock)
      >>= λ sock. if is_neg sock then pure sock else set_up sock p server o

  -- `create_handle`
  unfoldable pub create_handle : Bool → SetOpts → M ℤ
  unfolding io_type create_with
  create_handle server o = create_with server o (io_type o.type)

  -- The second `switch (opts->type)` of `bt_io_connect`, and what follows it.
  connect_with : SetOpts → Option Protocol → ℤ → M ℤ
  unfolding connect_for give_up
  connect_with o none sock = pure (negsuc 0)
  connect_with o (some p) sock =
      connect_for sock p o >>= λ a. if succeeded a then pure sock else give_up sock

  -- `bt_io_connect`
  unfoldable pub bt_io_connect : SetOpts → M ℤ
  unfolding create_handle io_type connect_with
  bt_io_connect o = do
    sock ← create_handle false o
    if is_minus_one sock then pure sock else connect_with o (io_type o.type) sock

  listen_on_socket : ℤ → M ℤ
  unfolding give_up
  listen_on_socket sock = do
    a ← ask (λ t. w.kernel.listen_on t sock 5) (λ a. listen sock 5 a)
    if succeeded a then pure sock else give_up sock

  -- `bt_io_listen`
  unfoldable pub bt_io_listen : SetOpts → M ℤ
  unfolding create_handle listen_on_socket
  bt_io_listen o = do
    sock ← create_handle true o
    if is_minus_one sock then pure sock else listen_on_socket sock
