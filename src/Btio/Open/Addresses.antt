-- ===== src/Btio/Open/Addresses.antt =====
-- src/btio.c: the types of sockets and the addresses that they are bound and connected to, by the
-- fields of the options, and that the code makes these.
use btle_js.Prelude.{ℕ, zero, suc, ap, ◌≡◌, refl, some, Bool, true, false, ◌==◌, ℤ, arith}
use btle_js.Options.{SetOpts}
use btle_js.Btio.{
  Protocol, l2cap, rfcomm, sco, SocketType, seqpacket, stream, SockaddrL2, Address, Machine,
  io_type,
}
use btle_js.Btio.Open.{socket_type, bind_socket, bind_for, connect_socket, connect_for, l2_address}

-- The `BtIOType` of a protocol.
abbrev pub bt_type_of : Protocol → ℕ
bt_type_of l2cap = 0
bt_type_of rfcomm = 1
bt_type_of sco = 2

pub bt_type_lem : (n : ℕ) (p : Protocol) → io_type n ≡ some p → n ≡ bt_type_of p
unfolding io_type
bt_type_lem n l2cap e = ground arith
bt_type_lem n rfcomm e = ground arith
bt_type_lem n sco e = ground arith

-- The type of a socket of each protocol.
abbrev pub kind_of : Protocol → SocketType
kind_of l2cap = seqpacket
kind_of rfcomm = stream
kind_of sco = seqpacket

pub socket_type-eq : (p : Protocol) → socket_type p ≡ kind_of p
socket_type-eq l2cap = refl
socket_type-eq rfcomm = refl
socket_type-eq sco = refl

module _ (w : Machine) where
  -- An L2CAP address of a device, with a port or, unless it is 0, a channel identifier.
  abbrev pub l2_at : ℕ → ℕ → ℕ → ℕ → SockaddrL2
  l2_at device type port zero = record {
    bdaddr = device;
    bdaddr_type = type;
    psm = w.host.htobs port;
    cid = 0;
  }
  l2_at device type port (suc channel) = record {
    bdaddr = device;
    bdaddr_type = type;
    psm = 0;
    cid = w.host.htobs (suc channel);
  }

  l2_address-eq :
      (device type port cid : ℕ) → l2_address w device type port cid ≡ l2_at device type port cid
  l2_address-eq device type port zero = refl
  l2_address-eq device type port (suc channel) =
      let some_channel : (suc channel == 0) ≡ false = ground arith in rw some_channel refl

  -- What a client (port and channel 0) or a server binds to.
  abbrev pub source_address : (p : Protocol) → Bool → SetOpts → Address p
  source_address l2cap false o = l2_at o.src o.src_type 0 o.cid
  source_address l2cap true o = l2_at o.src o.src_type o.psm o.cid
  source_address rfcomm false o = record { bdaddr = o.src; channel = 0 }
  source_address rfcomm true o = record { bdaddr = o.src; channel = o.channel }
  source_address sco server o = record { bdaddr = o.src }

  -- What a client connects to.
  abbrev pub peer_address : (p : Protocol) → SetOpts → Address p
  peer_address l2cap o = l2_at o.dst o.dst_type o.psm o.cid
  peer_address rfcomm o = record { bdaddr = o.dst; channel = o.channel }
  peer_address sco o = record { bdaddr = o.dst }

  -- What the functions for a protocol bind to and connect to.
  pub bind_for-eq :
      (sock : ℤ) (p : Protocol) (server : Bool) (o : SetOpts)
      → bind_for w sock p server o ≡ bind_socket w sock p (source_address p server o)
  unfolding bind_for
  bind_for-eq sock l2cap false o =
      ap (bind_socket w sock l2cap) (l2_address-eq o.src o.src_type 0 o.cid)
  bind_for-eq sock l2cap true o =
      ap (bind_socket w sock l2cap) (l2_address-eq o.src o.src_type o.psm o.cid)
  bind_for-eq sock rfcomm false o = refl
  bind_for-eq sock rfcomm true o = refl
  bind_for-eq sock sco server o = refl

  pub connect_for-eq :
      (sock : ℤ) (p : Protocol) (o : SetOpts)
      → connect_for w sock p o ≡ connect_socket w sock p (peer_address p o)
  unfolding connect_for
  connect_for-eq sock l2cap o =
      ap (connect_socket w sock l2cap) (l2_address-eq o.dst o.dst_type o.psm o.cid)
  connect_for-eq sock rfcomm o = refl
  connect_for-eq sock sco o = refl
