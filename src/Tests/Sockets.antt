-- ===== src/Tests/Sockets.antt =====
-- A kernel that grants what it is asked, and runs on it.
use Prim.Native.Nat.{bit_and}
use btle_js.Prelude.{◌≡◌, refl, done, [], ◌∷◌, some, true, pos, negsuc, arith, ℤ}
use btle_js.Options.{SetOpts}
use btle_js.Connection.{Connection}
use btle_js.Connection
use btle_js.Btio.{
  Protocol, l2cap, rfcomm, sco, Address, Name, domain, protocol, priority, security, flushable,
  defer_setup, lm, l2cap_options, sco_options, conninfo, Content, Answer, ok, failed, Trace, Kernel,
  Constants, Machine, ◌>>=◌, all_of, setsockopt, getsockopt, connect, set_flags, get_flags, bind,
  socket, seqpacket,
}
use btle_js.Btio.Set.{set_sec_level, set_security, l2cap_set, set_lm, set_lm_of}
use btle_js.Btio.Wanted.{imtu, cid, invalid}
use btle_js.Btio.Get.{bt_io_get, get_sec_level}
use btle_js.Btio.Get.Counts.{Counts, bt_io_get-Counts}
use btle_js.Btio.Open.{bt_io_connect, bt_io_listen}
use btle_js.Btio.Runs.{Returns}
use btle_js.Btio.Open.Owned.{IsTight, leaves_open}
use btle_js.Btio.Open.Calls.{IsConnected, bt_io_connect_calls}
use btle_js.Btio.Open.Users.{Outcomes, connect_opens}
use btle_js.Btio.Legacy.{Documented, IsLegacy, lm_after, get_sec_level-set_sec_level}
use btle_js.Btio.Legacy.Master.{master_lost}
use btle_js.Tests.Sample.{host}
use btle_js.Tests.Values.{bluetooth}

-- Options of descriptor 5, an L2CAP socket; the kernel knows no BT_SECURITY.
abbrev option_of : Trace → (n : Name) → Answer (Content n)
option_of t domain = ok 31
option_of t protocol = ok 0
option_of t priority = ok 0
option_of t security = failed 91
option_of t flushable = ok 0
option_of t defer_setup = ok 0
option_of t (lm p) = ok (lm_after p (pos 5) 1 t)
option_of t l2cap_options = ok (record { omtu = 672; imtu = 672; mode = 0; others = [] })
option_of t sco_options = ok 60
option_of t (conninfo p) = failed 106

abbrev set_option : (n : Name) → Answer (Unit {0})
set_option security = failed 91
set_option _ = ok tt

abbrev address : (p : Protocol) → Address p
address l2cap = record { psm = 0; bdaddr = 7; cid = 4; bdaddr_type = 1 }
address rfcomm = record { bdaddr = 7; channel = 3 }
address sco = record { bdaddr = 7 }

abbrev kernel : Kernel
kernel = record {
  socket_of = λ t p kind. pos 5;
  bind_to = λ t sock p addr. ok tt;
  connect_to = λ t sock p addr. failed 114;
  listen_on = λ t sock backlog. ok tt;
  option_of = λ t sock n. option_of t n;
  set_option = λ t sock n v. set_option n;
  name_of = λ t sock p. ok (address p);
  peer_of = λ t sock p. ok (address p);
  flags_of = λ t sock. ok 2;
  change_flags = λ t sock flags. ok tt;
  poll_of = λ t sock. ok true;
  read_of = λ t sock. ok tt;
}

abbrev constants : Constants
constants = record {
  af_bluetooth = 31;
  btproto_l2cap = 0;
  btproto_rfcomm = 3;
  btproto_sco = 2;
  lm_master = λ p. 1;
  lm_auth = λ p. 2;
  lm_encrypt = λ p. 4;
  lm_secure = λ p. 32;
  bt_security_medium = 2;
  o_nonblock = 2048;
  eagain = 11;
  einprogress = 115;
  enoprotoopt = 92;
  ba2str = λ a. "00:00:00:00:00:07";
}

abbrev machine : Machine
machine = record { kernel = kernel; constants = constants; bluetooth = bluetooth; host = host }

documented : Documented machine
documented = record {
  master = λ p. refl;
  auth = λ p. refl;
  encrypt = λ p. refl;
  secure = λ p. refl;
  low = refl;
  medium = refl;
  high = refl;
}

legacy : IsLegacy machine (pos 5) 1
legacy = record {
  errno = 91;
  unknown = refl;
  refuses_set = λ t v. refl;
  refuses_get = λ t. refl;
  accepts = λ t p v. refl;
  remembers = λ t p. refl;
}

abbrev options : SetOpts
options = record {
  src = 0;
  dst = 7;
  type = 0;
  src_type = 1;
  dst_type = 1;
  defer = pos 30;
  sec_level = pos 2;
  channel = 0;
  psm = 0;
  cid = 4;
  mtu = 0;
  imtu = 100;
  omtu = 0;
  master = pos 1;
  mode = 0;
  flushable = negsuc 0;
  priority = 0;
}

leaves_open_example :
    IsTight [] (bt_io_connect machine options []) × IsTight [] (bt_io_listen machine options [])
leaves_open_example = leaves_open machine (omega arith) options []

get_sec_level-set_sec_level_example :
    (t' : Trace) × (t'' : Trace) × (set_sec_level machine (pos 5) rfcomm (pos 3) []
      ≡ done (true, t'))
    × (get_sec_level machine (pos 5) rfcomm t' ≡ done (some 3, t''))
get_sec_level-set_sec_level_example =
    get_sec_level-set_sec_level machine documented (pos 5) legacy rfcomm 3 [] (omega arith)
      (omega arith)

bt_io_get-Counts_example :
    Returns
      (Counts (pos 5) [] (imtu ∷ cid ∷ []))
      (bt_io_get machine (pos 5) (imtu ∷ cid ∷ invalid ∷ []) [])
bt_io_get-Counts_example =
    bt_io_get-Counts machine (pos 5) (imtu ∷ cid ∷ invalid ∷ []) (imtu ∷ cid ∷ []) refl []

-- What `l2cap_set` calls for these options: the MASTER bit is there at first.
abbrev after_set : Trace → Trace
after_set t =
    setsockopt (pos 5) (lm l2cap) 6 (ok tt)
    ∷ setsockopt (pos 5) security (record { level = 2; key_size = 0 }) (failed 91)
    ∷ getsockopt (pos 5) (lm l2cap) (ok 1)
    ∷ setsockopt (pos 5) l2cap_options (record { omtu = 672; imtu = 100; mode = 0; others = [] })
        (ok tt)
    ∷ getsockopt (pos 5) l2cap_options
        (ok (record { omtu = 672; imtu = 672; mode = 0; others = [] }))
    ∷ t

master_lost_example : bit_and (lm_after l2cap (pos 5) 1 (after_set [])) 1 ≡ 0
unfolding l2cap_set set_sec_level set_security set_lm_of set_lm all_of ◌>>=◌
master_lost_example =
    master_lost machine documented (pos 5) legacy options 1 [] (omega arith) refl refl

abbrev calls : Trace
calls =
    connect (pos 5) l2cap (record { psm = 0; bdaddr = 7; cid = host.htobs 4; bdaddr_type = 1 })
      (failed 114)
    ∷ set_flags (pos 5) 2050 (ok tt)
    ∷ get_flags (pos 5) (ok 2)
    ∷ after_set (
        bind (pos 5) l2cap (record { psm = 0; bdaddr = 0; cid = host.htobs 4; bdaddr_type = 1 })
          (ok tt)
        ∷ socket l2cap seqpacket (pos 5)
        ∷ [])

bt_io_connect_calls_example : IsConnected machine options (pos 5) [] calls
unfolding bt_io_connect all_of ◌>>=◌
bt_io_connect_calls_example = bt_io_connect_calls machine (omega arith) options [] 5 refl

connect_opens_example :
    (sock : ℤ) × (t' : Trace) × (bt_io_connect machine options [] ≡ done (sock, t'))
    × Outcomes Connection.init 0 8 9 [] sock t'
connect_opens_example =
    connect_opens machine (omega arith) (λ t p kind e. absurd (ground arith)) Connection.init
      options 0 8 9 []
