-- ===== src/Btio/Set.antt =====
-- src/btio.c: setting the options of a socket.
pub mod Keeps
use Prim.Native.Nat.{bit_and, bit_or}
use btle_js.Prelude.{
  ℕ, zero, suc, ◌-◌, ◌^◌, List, [], ◌∷◌, Option, none, some, Bool, true, false, not, ◌||◌, ◌==◌,
  if◌then◌else◌, ltb, ℤ, pos, negsuc, is_neg, get_elem?,
}
use btle_js.Js.{wrap}
use btle_js.Options.{SetOpts, is_within}
use btle_js.Btio.{
  Protocol, l2cap, rfcomm, sco, Security, Name, domain, protocol, priority, security, flushable, lm,
  l2cap_options, sco_options, Content, Answer, ok, failed, succeeded, has_errno, getsockopt,
  setsockopt, Machine, M, pure, out_of_bounds, ◌>>=◌, ask, all_of, only_if, succeeds,
}

abbrev pub is_set : ℤ → Bool
is_set (pos zero) = false
is_set _ = true

module _ (w : Machine) (sock : ℤ) where
  abbrev pub read_option : (n : Name) → M (Answer (Content n))
  read_option n = ask (λ t. w.kernel.option_of t sock n) (λ a. getsockopt sock n a)

  abbrev pub write_option : (n : Name) → Content n → M (Answer (Unit {0}))
  write_option n v = ask (λ t. w.kernel.set_option t sock n v) (λ a. setsockopt sock n v a)

  protocol_of : ℕ → Option Protocol
  protocol_of proto =
      if proto == w.constants.btproto_rfcomm
      then some rfcomm
      else if proto == w.constants.btproto_sco
      then some sco
      else if proto == w.constants.btproto_l2cap
      then some l2cap
      else none

  type_of_bluetooth : M (Option Protocol)
  unfolding protocol_of
  type_of_bluetooth = do
    proto ← read_option protocol
    elim proto [ failed _ ↦ pure none | ok n ↦ pure (protocol_of n) ]

  -- `bt_io_get_type`
  unfoldable pub bt_io_get_type : M (Option Protocol)
  unfolding type_of_bluetooth
  bt_io_get_type = do
    family ← read_option domain
    elim family [
      | failed _ ↦ pure none
      | ok f ↦ if f == w.constants.af_bluetooth then type_of_bluetooth else pure none
    ]

  -- `l2cap_set_master` and `rfcomm_set_master`: nothing is set when the bit is as wanted. `~` is on
  -- 32 bits.
  pub set_master : Protocol → ℤ → M (Answer (Unit {0}))
  set_master p master = do
    read ← read_option (lm p)
    elim read [
      | failed e ↦ pure (failed e)
      | ok flags ↦
          let bit = w.constants.lm_master p in
          let has_bit = not (bit_and flags bit == 0) in
          if is_set master
          then if has_bit then pure (ok tt) else write_option (lm p) (bit_or flags bit)
          else if has_bit
          then write_option (lm p) (bit_and flags (2 ^ 32 - 1 - bit))
          else pure (ok tt)
    ]

  unfoldable pub l2cap_set_master : ℤ → M (Answer (Unit {0}))
  unfolding set_master
  l2cap_set_master master = set_master l2cap master

  unfoldable pub rfcomm_set_master : ℤ → M (Answer (Unit {0}))
  unfolding set_master
  rfcomm_set_master master = set_master rfcomm master

  unfoldable pub lm_map : Protocol → List ℕ
  lm_map p =
      let auth = w.constants.lm_auth p in
      let encrypt = w.constants.lm_encrypt p in
      0 ∷ auth ∷ bit_or auth encrypt ∷ bit_or (bit_or auth encrypt) (w.constants.lm_secure p) ∷ []

  -- `lm_map[level]`: an access outside of the array is a fault.
  unfoldable pub set_lm : Protocol → ℤ → M (Answer (Unit {0}))
  unfolding lm_map
  set_lm p (pos level) = elim (get_elem? (lm_map p) level) [
    | none ↦ out_of_bounds
    | some bits ↦ write_option (lm p) bits
  ]
  set_lm p (negsuc level) = out_of_bounds

  unfoldable pub l2cap_set_lm : ℤ → M (Answer (Unit {0}))
  unfolding set_lm
  l2cap_set_lm level = set_lm l2cap level

  unfoldable pub rfcomm_set_lm : ℤ → M (Answer (Unit {0}))
  unfolding set_lm
  rfcomm_set_lm level = set_lm rfcomm level

  unfoldable pub set_lm_of : Protocol → ℤ → M (Answer (Unit {0}))
  unfolding l2cap_set_lm rfcomm_set_lm
  set_lm_of l2cap level = l2cap_set_lm level
  set_lm_of _ level = rfcomm_set_lm level

  unfoldable pub set_security : Protocol → ℤ → M Bool
  unfolding set_lm_of
  set_security type level = do
    set ← write_option security (record { level = wrap (2 ^ 8) level; key_size = 0 })
    if succeeded set
        then pure true
        else if has_errno set (λ e. e == w.constants.enoprotoopt)
        then succeeds (set_lm_of type level)
        else pure false

  -- `set_sec_level`
  unfoldable pub set_sec_level : Protocol → ℤ → M Bool
  unfolding set_security
  set_sec_level type level =
      if is_within w.bluetooth.bt_security_low w.bluetooth.bt_security_high level
      then set_security type level
      else pure false

  -- `l2cap_set_flushable`, which takes a `bool`
  unfoldable pub l2cap_set_flushable : Bool → M (Answer (Unit {0}))
  l2cap_set_flushable value = write_option flushable (if value then 1 else 0)

  unfoldable pub set_priority : ℕ → M (Answer (Unit {0}))
  set_priority prio = write_option priority prio

  -- The first block of `l2cap_set`: what is 0 keeps what the socket has.
  pub set_l2cap_options : ℕ → ℕ → ℕ → M Bool
  set_l2cap_options imtu omtu mode = do
    read ← read_option l2cap_options
    elim read [
      | failed _ ↦ pure false
      | ok l2o ↦ succeeds (
          write_option l2cap_options (record l2o {
            imtu = if imtu == 0 then l2o.imtu else imtu;
            omtu = if omtu == 0 then l2o.omtu else omtu;
            mode = if mode == 0 then l2o.mode else mode;
          }))
    ]

  unfoldable pub l2cap_set : SetOpts → M Bool
  unfolding set_l2cap_options l2cap_set_master l2cap_set_flushable set_priority set_sec_level
  l2cap_set o = all_of (
      only_if (not (o.imtu == 0) || not (o.omtu == 0) || not (o.mode == 0))
        (set_l2cap_options o.imtu o.omtu o.mode)
      ∷ only_if (not (is_neg o.master)) (succeeds (l2cap_set_master o.master))
      ∷ only_if (not (is_neg o.flushable)) (succeeds (l2cap_set_flushable (is_set o.flushable)))
      ∷ only_if (ltb 0 o.priority) (succeeds (set_priority o.priority))
      ∷ only_if (is_set o.sec_level) (set_sec_level l2cap o.sec_level)
      ∷ [])

  unfoldable pub rfcomm_set : SetOpts → M Bool
  unfolding rfcomm_set_master set_sec_level
  rfcomm_set o = all_of (
      only_if (is_set o.sec_level) (set_sec_level rfcomm o.sec_level)
      ∷ only_if (not (is_neg o.master)) (succeeds (rfcomm_set_master o.master))
      ∷ [])

  -- `sco_set`: `struct sco_options` is its one member, `mtu`.
  unfoldable pub sco_set : ℕ → M Bool
  sco_set mtu = only_if (not (mtu == 0)) (
      read_option sco_options >>= λ read. elim read [
        | failed _ ↦ pure false
        | ok _ ↦ succeeds (write_option sco_options mtu)
      ])

  -- What `bt_io_set` and `create_handle` call for a protocol.
  unfoldable pub set_options : Protocol → SetOpts → M Bool
  unfolding l2cap_set rfcomm_set sco_set
  set_options l2cap o = l2cap_set o
  set_options rfcomm o = rfcomm_set o
  set_options sco o = sco_set o.mtu

  -- `bt_io_set`
  unfoldable pub bt_io_set : SetOpts → M Bool
  unfolding bt_io_get_type set_options
  bt_io_set o = do type ← bt_io_get_type; elim type [ none ↦ pure false | some p ↦ set_options p o ]
