-- ===== src/Btio/Get.antt =====
-- src/btio.c: reading the options of a socket. `BtIOOption` and `BtIOType` are those of src/btio.h.
pub mod Keeps
pub mod Counts
use Prim.Native.Nat.{bit_and}
use btle_js.Prelude.{
  ℕ, suc, List, [], ◌∷◌, Option, none, some, String, Bool, true, false, not, ◌==◌, if◌then◌else◌, ℤ,
}
use btle_js.Btio.{
  Protocol, l2cap, rfcomm, sco, SockaddrL2, SockaddrRc, SockaddrSco, Address, L2capOptions,
  ConnInfo, priority, security, flushable, defer_setup, lm, l2cap_options, sco_options, conninfo,
  Answer, ok, failed, getsockname, getpeername, poll_out, read_byte, Machine, M, pure,
  out_of_bounds, ◌>>=◌, ask, succeeds,
}
use btle_js.Btio.Wanted.{
  Wanted, invalid, source, source_bdaddr, source_type, dest, dest_bdaddr, dest_type, defer_timeout,
  sec_level, key_size, channel, source_channel, dest_channel, psm, cid, mtu, omtu, imtu, master,
  handle, class, mode, flush, prio, Value, text, address, number, flag, bytes, is_end, store_next,
  get_all, stored, first_of,
}
use btle_js.Btio.Set.{read_option, bt_io_get_type}

module _ (w : Machine) (sock : ℤ) where
  has_bit : ℕ → ℕ → Bool
  has_bit flags bit = not (bit_and flags bit == 0)

  -- `l2cap_get_lm` and `rfcomm_get_lm`
  unfoldable pub level_of : Protocol → ℕ → ℕ
  unfolding has_bit
  level_of p opt =
      if has_bit opt (w.constants.lm_secure p)
      then w.bluetooth.bt_security_high
      else if has_bit opt (w.constants.lm_encrypt p)
      then w.constants.bt_security_medium
      else if has_bit opt (w.constants.lm_auth p)
      then w.bluetooth.bt_security_low
      else 0

  unfoldable pub get_lm : Protocol → M (Option ℕ)
  unfolding level_of
  get_lm p = do
    read ← read_option w sock (lm p)
    elim read [ failed _ ↦ pure none | ok opt ↦ pure (some (level_of p opt)) ]

  unfoldable pub l2cap_get_lm : M (Option ℕ)
  unfolding get_lm
  l2cap_get_lm = get_lm l2cap

  unfoldable pub rfcomm_get_lm : M (Option ℕ)
  unfolding get_lm
  rfcomm_get_lm = get_lm rfcomm

  unfoldable pub get_lm_of : Protocol → M (Option ℕ)
  unfolding l2cap_get_lm rfcomm_get_lm
  get_lm_of l2cap = l2cap_get_lm
  get_lm_of _ = rfcomm_get_lm

  -- `get_sec_level`: the level, unless it returns false.
  unfoldable pub get_sec_level : Protocol → M (Option ℕ)
  unfolding get_lm_of
  get_sec_level type = do
    read ← read_option w sock security
    elim read [
      | ok sec ↦ pure (some sec.level)
      | failed n ↦ if suc n == w.constants.enoprotoopt then get_lm_of type else pure none
    ]

  stored_level : Protocol → M (Option Value)
  unfolding get_sec_level
  stored_level type = do
    level ← get_sec_level type
    elim level [ none ↦ pure none | some n ↦ pure (some (number n)) ]

  -- `get_key_size`
  unfoldable pub get_key_size : M (Option Value)
  unfolding stored
  get_key_size = stored (read_option w sock security) (λ sec. number sec.key_size)

  unfoldable pub l2cap_get_flushable : M (Option Value)
  unfolding stored
  l2cap_get_flushable = stored (read_option w sock flushable) (λ f. flag (not (f == 0)))

  unfoldable pub get_priority : M (Option Value)
  unfolding stored
  get_priority = stored (read_option w sock priority) (λ n. number n)

  get_info : Protocol → (ConnInfo → Value) → M (Option Value)
  unfolding stored
  get_info p value = stored (read_option w sock (conninfo p)) value

  -- One member of what `l2cap_get_info`, `rfcomm_get_info` and `sco_get_info` read.
  unfoldable pub l2cap_get_info : (ConnInfo → Value) → M (Option Value)
  unfolding get_info
  l2cap_get_info value = get_info l2cap value

  unfoldable pub rfcomm_get_info : (ConnInfo → Value) → M (Option Value)
  unfolding get_info
  rfcomm_get_info value = get_info rfcomm value

  unfoldable pub sco_get_info : (ConnInfo → Value) → M (Option Value)
  unfolding get_info
  sco_get_info value = get_info sco value

  -- The MASTER bit of the link mode.
  get_master : Protocol → M (Option Value)
  unfolding stored has_bit
  get_master p =
      stored (read_option w sock (lm p)) (λ flags. flag (has_bit flags (w.constants.lm_master p)))

  get_defer : M (Option Value)
  unfolding stored
  get_defer = stored (read_option w sock defer_setup) (λ n. number n)

  -- `get_peers`: the addresses of both sides, unless it returns false.
  unfoldable pub get_peers : (p : Protocol) → M (Option (Address p × Address p))
  get_peers p = do
    src ← ask (λ t. w.kernel.name_of t sock p) (λ a. getsockname sock p a)
    elim src [
      | failed _ ↦ pure none
      | ok s ↦
          ask (λ t. w.kernel.peer_of t sock p) (λ a. getpeername sock p a)
          >>= λ (dst : Answer (Address p)). elim dst [
            | failed _ ↦ pure none
            | ok d ↦ pure (some (s, d))
          ]
    ]

  -- One turn of the loop in `l2cap_get`.
  pub l2cap_option : L2capOptions → SockaddrL2 × SockaddrL2 → Wanted → M (Option Value)
  unfolding stored_level get_key_size l2cap_get_flushable get_priority l2cap_get_info get_master
      get_defer first_of
  l2cap_option l2o peers opt = elim opt [
    | source ↦ pure (some (text (w.constants.ba2str peers.0.bdaddr)))
    | source_bdaddr ↦ pure (some (address peers.0.bdaddr))
    | dest ↦ pure (some (text (w.constants.ba2str peers.1.bdaddr)))
    | dest_bdaddr ↦ pure (some (address peers.1.bdaddr))
    | defer_timeout ↦ get_defer
    | sec_level ↦ stored_level l2cap
    | key_size ↦ get_key_size
    | psm ↦ pure (some (number (first_of w.host.btohs peers.0.psm peers.1.psm)))
    | cid ↦ pure (some (number (first_of w.host.btohs peers.0.cid peers.1.cid)))
    | omtu ↦ pure (some (number l2o.omtu))
    | imtu ↦ pure (some (number l2o.imtu))
    | master ↦ get_master l2cap
    | handle ↦ l2cap_get_info (λ i. number i.hci_handle)
    | class ↦ l2cap_get_info (λ i. bytes i.dev_class)
    | mode ↦ pure (some (number l2o.mode))
    | flush ↦ l2cap_get_flushable
    | prio ↦ get_priority
    | _ ↦ pure none
  ]

  -- The loop, once the addresses are there.
  with_peers :
      (p : Protocol)
      → (Address p × Address p → Wanted → M (Option Value))
      → List Wanted
      → M (Bool × List Value)
  unfolding get_peers get_all
  with_peers p get opts = do
    peers ← get_peers p
    elim peers [ none ↦ pure (false, []) | some both ↦ get_all (get both) opts ]

  unfoldable pub l2cap_get : List Wanted → M (Bool × List Value)
  unfolding with_peers l2cap_option
  l2cap_get opts = do
    read ← read_option w sock l2cap_options
    elim read [
      | failed _ ↦ pure (false, [])
      | ok l2o ↦ with_peers l2cap (λ peers. l2cap_option l2o peers) opts
    ]

  pub rfcomm_option : SockaddrRc × SockaddrRc → Wanted → M (Option Value)
  unfolding stored_level rfcomm_get_info get_master get_defer first_of
  rfcomm_option peers opt = elim opt [
    | source ↦ pure (some (text (w.constants.ba2str peers.0.bdaddr)))
    | source_bdaddr ↦ pure (some (address peers.0.bdaddr))
    | dest ↦ pure (some (text (w.constants.ba2str peers.1.bdaddr)))
    | dest_bdaddr ↦ pure (some (address peers.1.bdaddr))
    | defer_timeout ↦ get_defer
    | sec_level ↦ stored_level rfcomm
    | channel ↦ pure (some (number (first_of (λ c. c) peers.0.channel peers.1.channel)))
    | source_channel ↦ pure (some (number peers.0.channel))
    | dest_channel ↦ pure (some (number peers.1.channel))
    | master ↦ get_master rfcomm
    | handle ↦ rfcomm_get_info (λ i. number i.hci_handle)
    | class ↦ rfcomm_get_info (λ i. bytes i.dev_class)
    | _ ↦ pure none
  ]

  unfoldable pub rfcomm_get : List Wanted → M (Bool × List Value)
  unfolding with_peers rfcomm_option
  rfcomm_get opts = with_peers rfcomm rfcomm_option opts

  pub sco_option : ℕ → SockaddrSco × SockaddrSco → Wanted → M (Option Value)
  unfolding sco_get_info
  sco_option sco_mtu peers opt = elim opt [
    | source ↦ pure (some (text (w.constants.ba2str peers.0.bdaddr)))
    | source_bdaddr ↦ pure (some (address peers.0.bdaddr))
    | dest ↦ pure (some (text (w.constants.ba2str peers.1.bdaddr)))
    | dest_bdaddr ↦ pure (some (address peers.1.bdaddr))
    | mtu ↦ pure (some (number sco_mtu))
    | imtu ↦ pure (some (number sco_mtu))
    | omtu ↦ pure (some (number sco_mtu))
    | handle ↦ sco_get_info (λ i. number i.hci_handle)
    | class ↦ sco_get_info (λ i. bytes i.dev_class)
    | _ ↦ pure none
  ]

  unfoldable pub sco_get : List Wanted → M (Bool × List Value)
  unfolding with_peers sco_option
  sco_get opts = do
    read ← read_option w sock sco_options
    elim read [
      | failed _ ↦ pure (false, [])
      | ok sco_mtu ↦ with_peers sco (λ peers. sco_option sco_mtu peers) opts
    ]

  -- `get_valist`
  get_valist : Protocol → List Wanted → M (Bool × List Value)
  unfolding l2cap_get rfcomm_get sco_get
  get_valist l2cap opts = l2cap_get opts
  get_valist rfcomm opts = rfcomm_get opts
  get_valist sco opts = sco_get opts

  -- `bt_io_get`: its result, and the values behind the pointers in order.
  unfoldable pub bt_io_get : List Wanted → M (Bool × List Value)
  unfolding bt_io_get_type get_valist
  bt_io_get opts = do
    type ← bt_io_get_type w sock
    elim type [ none ↦ pure (false, []) | some p ↦ get_valist p opts ]

  -- `bt_io_accept`
  unfoldable pub bt_io_accept : M Bool
  bt_io_accept = do
    polled ← ask (λ t. w.kernel.poll_of t sock) (λ a. poll_out sock a)
    elim polled [
      | failed _ ↦ pure false
      | ok writable ↦
          if writable
          then pure true
          else succeeds (ask (λ t. w.kernel.read_of t sock) (λ a. read_byte sock a))
    ]
