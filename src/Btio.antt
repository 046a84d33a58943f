-- ===== src/Btio.antt =====
-- src/btio.c, src/btio.h: Bluetooth sockets. What the kernel answers is a parameter: each call is an
-- event with its answer, and an answer may depend on all events so far.
pub mod Set
pub mod Wanted
pub mod Get
pub mod Open
pub mod Traces
pub mod Runs
pub mod Legacy
use btle_js.Prelude.{
  ℕ, suc, Outcome, done, fault, stuck, List, [], ◌∷◌, Option, none, some, String, Bool, true, false,
  if◌then◌else◌, ◌==◌, ℤ,
}
use btle_js.Host.{Host}
use btle_js.Options.{Bluetooth}

-- `BtIOType`; BT_IO_INVALID is the lack of one.
pub data Protocol : Type 0 where
  l2cap : Protocol
  rfcomm : Protocol
  sco : Protocol

unfoldable pub io_type : ℕ → Option Protocol
io_type n =
    if n == 0 then some l2cap else if n == 1 then some rfcomm else if n == 2 then some sco else none

pub data SocketType : Type 0 where
  seqpacket : SocketType
  stream : SocketType

-- `struct sockaddr_l2`, `sockaddr_rc` and `sockaddr_sco`; the family is always AF_BLUETOOTH.
pub record SockaddrL2 : Type 0 where
  pub psm : ℕ
  pub bdaddr : ℕ
  pub cid : ℕ
  pub bdaddr_type : ℕ

pub record SockaddrRc : Type 0 where
  pub bdaddr : ℕ
  pub channel : ℕ

pub record SockaddrSco : Type 0 where
  pub bdaddr : ℕ

abbrev pub Address : Protocol → Type 0
Address l2cap = SockaddrL2
Address rfcomm = SockaddrRc
Address sco = SockaddrSco

-- `struct bt_security`, `l2cap_options` and the three `conninfo`, as far as the code looks into them.
pub record Security : Type 0 where
  pub level : ℕ
  pub key_size : ℕ

pub record L2capOptions : Type 0 where
  pub omtu : ℕ
  pub imtu : ℕ
  pub mode : ℕ
  pub others : List ℕ

pub record ConnInfo : Type 0 where
  pub hci_handle : ℕ
  pub dev_class : List ℕ

-- The options of a socket that the code reads or sets: SO_DOMAIN, SO_PROTOCOL, SO_PRIORITY,
-- BT_SECURITY, BT_FLUSHABLE, BT_DEFER_SETUP, L2CAP_LM or RFCOMM_LM, L2CAP_OPTIONS, SCO_OPTIONS, and
-- the CONNINFO of a protocol. An `int` is its 32 bits.
pub data Name : Type 0 where
  domain : Name
  protocol : Name
  priority : Name
  security : Name
  flushable : Name
  defer_setup : Name
  lm : Protocol → Name
  l2cap_options : Name
  sco_options : Name
  conninfo : Protocol → Name

abbrev pub Content : Name → Type 0
Content security = Security
Content l2cap_options = L2capOptions
Content (conninfo p) = ConnInfo
Content _ = ℕ

-- What a call returns: its result, or -1 with `errno`, which is `n + 1` for `failed n`, since no
-- error has the number 0. A function of the code that returns 0 or `-errno` has such a result too.
pub data Answer (A : Type 0) : Type 0 where
  ok : A → Answer A
  failed : ℕ → Answer A

abbrev pub succeeded : {A : Type 0} → Answer A → Bool
succeeded (ok _) = true
succeeded (failed _) = false

abbrev pub has_errno : {A : Type 0} → Answer A → (ℕ → Bool) → Bool
has_errno (ok _) test = false
has_errno (failed n) test = test (suc n)

pub data Event : Type 0 where
  socket : Protocol → SocketType → ℤ → Event
  bind : ℤ → (p : Protocol) → Address p → Answer (Unit {0}) → Event
  connect : ℤ → (p : Protocol) → Address p → Answer (Unit {0}) → Event
  listen : ℤ → ℕ → Answer (Unit {0}) → Event
  getsockopt : ℤ → (n : Name) → Answer (Content n) → Event
  setsockopt : ℤ → (n : Name) → Content n → Answer (Unit {0}) → Event
  getsockname : ℤ → (p : Protocol) → Answer (Address p) → Event
  getpeername : ℤ → (p : Protocol) → Answer (Address p) → Event
  get_flags : ℤ → Answer ℕ → Event
  set_flags : ℤ → ℕ → Answer (Unit {0}) → Event
  poll_out : ℤ → Answer Bool → Event
  read_byte : ℤ → Answer (Unit {0}) → Event
  close : ℤ → Event

-- The latest event first.
abbrev pub Trace : Type 0
Trace = List Event

-- `socket` is answered by a descriptor, or by -1. `get_flags` and `set_flags` are `fcntl`; `poll_out`
-- tells whether POLLOUT is among the returned events.
pub record Kernel : Type 0 where
  pub socket_of : Trace → Protocol → SocketType → ℤ
  pub bind_to : Trace → ℤ → (p : Protocol) → Address p → Answer (Unit {0})
  pub connect_to : Trace → ℤ → (p : Protocol) → Address p → Answer (Unit {0})
  pub listen_on : Trace → ℤ → ℕ → Answer (Unit {0})
  pub option_of : Trace → ℤ → (n : Name) → Answer (Content n)
  pub set_option : Trace → ℤ → (n : Name) → Content n → Answer (Unit {0})
  pub name_of : Trace → ℤ → (p : Protocol) → Answer (Address p)
  pub peer_of : Trace → ℤ → (p : Protocol) → Answer (Address p)
  pub flags_of : Trace → ℤ → Answer ℕ
  pub change_flags : Trace → ℤ → ℕ → Answer (Unit {0})
  pub poll_of : Trace → ℤ → Answer Bool
  pub read_of : Trace → ℤ → Answer (Unit {0})

-- Constants of the system's headers. The bits of RFCOMM_LM are those of L2CAP_LM by other names, and
-- are given for both.
pub record Constants : Type 0 where
  pub af_bluetooth : ℕ
  pub btproto_l2cap : ℕ
  pub btproto_rfcomm : ℕ
  pub btproto_sco : ℕ
  pub lm_master : Protocol → ℕ
  pub lm_auth : Protocol → ℕ
  pub lm_encrypt : Protocol → ℕ
  pub lm_secure : Protocol → ℕ
  pub bt_security_medium : ℕ
  pub o_nonblock : ℕ
  pub eagain : ℕ
  pub einprogress : ℕ
  pub enoprotoopt : ℕ
  pub ba2str : ℕ → String

pub record Machine : Type 0 where
  pub kernel : Kernel
  pub constants : Constants
  pub bluetooth : Bluetooth
  pub host : Host

-- A run of code that calls the kernel.
abbrev pub M : Type 0 → Type 0
M A = Trace → Outcome (A × Trace)

abbrev pub pure : {A : Type 0} → A → M A
pure a t = done (a, t)

abbrev pub out_of_bounds : {A : Type 0} → M A
out_of_bounds t = fault

infixl 5 ◌>>=◌
unfoldable pub ◌>>=◌ : {A B : Type 0} → M A → (A → M B) → M B
◌>>=◌ m f t = elim (m t) [ done (a, t') ↦ f a t' | fault ↦ fault | stuck ↦ stuck ]

-- One call: what answers it, and its event.
abbrev pub ask : {A : Type 0} → (Trace → A) → (A → Event) → M A
ask answer event t = done (answer t, event (answer t) ∷ t)

-- `if (!first) return false; … return true;`
unfoldable pub all_of : List (M Bool) → M Bool
all_of [] = pure true
all_of (m ∷ ms) = m >>= λ passed. if passed then all_of ms else pure false

abbrev pub only_if : Bool → M Bool → M Bool
only_if b m = if b then m else pure true

-- `!(f(…) < 0)`
abbrev pub succeeds : {A : Type 0} → M (Answer A) → M Bool
succeeds m = m >>= λ a. pure (succeeded a)
