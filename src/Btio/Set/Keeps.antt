-- ===== src/Btio/Set/Keeps.antt =====
-- Setting options calls the kernel about the one socket, and reads no table past its end.
use btle_js.Prelude.{ℕ, zero, suc, ◌≤◌, ◌≡◌, refl, none, true, false, ℤ, pos, negsuc, arith}
use btle_js.Options.{SetOpts, is_within}
use btle_js.Btio.{
  Protocol, domain, protocol, l2cap, rfcomm, sco, Name, lm, l2cap_options, sco_options, security,
  flushable, priority, Content, ok, failed, Machine, getsockopt, setsockopt,
}
use btle_js.Btio.Set.{
  read_option, write_option, bt_io_get_type, set_master, set_lm, set_lm_of, set_sec_level,
  l2cap_set_flushable, set_priority, set_l2cap_options, set_options, bt_io_set, l2cap_set_lm,
  rfcomm_set_lm,
}
use btle_js.Btio.Runs.{
  Keeps, Keeps-pure, Keeps-ask, Keeps-bind, Keeps-answer, Keeps-option, Keeps-if, Keeps-when,
  Keeps-only_if, Keeps-succeeds, Keeps-all_nil, Keeps-all_cons,
}

module _ (w : Machine) {sock : ℤ} where
  pub Keeps-read : (n : Name) → Keeps sock (read_option w sock n)
  Keeps-read n = Keeps-ask _ (λ a. getsockopt sock n a) λ a. refl

  pub Keeps-write : (n : Name) (v : Content n) → Keeps sock (write_option w sock n v)
  Keeps-write n v = Keeps-ask _ (λ a. setsockopt sock n v a) λ a. refl

  pub Keeps-type : Keeps sock (bt_io_get_type w sock)
  unfolding bt_io_get_type
  Keeps-type = Keeps-bind _ _ (Keeps-read domain) (
      Keeps-answer _
        (λ f.
          Keeps-if _
            (Keeps-bind _ _ (Keeps-read protocol)
              (Keeps-answer _ (λ n. Keeps-pure _) (λ _. Keeps-pure none)))
            (Keeps-pure none))
        (λ _. Keeps-pure none))

  pub Keeps-master : (p : Protocol) (master : ℤ) → Keeps sock (set_master w sock p master)
  unfolding set_master
  Keeps-master p master = Keeps-bind _ _ (Keeps-read (lm p)) (
      Keeps-answer _
        (λ flags.
          Keeps-if _ (Keeps-if _ (Keeps-pure (ok tt)) (Keeps-write (lm p) _))
            (Keeps-if _ (Keeps-write (lm p) _) (Keeps-pure (ok tt))))
        (λ e. Keeps-pure (failed e)))

module _ (w : Machine) (h : w.bluetooth.bt_security_high ≤ 3) {sock : ℤ} where
  Keeps-set_lm :
      (p : Protocol) (level : ℤ)
      → is_within w.bluetooth.bt_security_low w.bluetooth.bt_security_high level ≡ true
      → Keeps sock (set_lm w sock p level)
  unfolding set_lm
  Keeps-set_lm p (pos zero) e = Keeps-write w (lm p) _
  Keeps-set_lm p (pos (suc zero)) e = Keeps-write w (lm p) _
  Keeps-set_lm p (pos (suc (suc zero))) e = Keeps-write w (lm p) _
  Keeps-set_lm p (pos (suc (suc (suc zero)))) e = Keeps-write w (lm p) _
  Keeps-set_lm p (pos (suc (suc (suc (suc n))))) e = absurd (ground arith)
  Keeps-set_lm p (negsuc n) e = absurd (ground arith)

  Keeps-lm_of :
      (p : Protocol) (level : ℤ)
      → is_within w.bluetooth.bt_security_low w.bluetooth.bt_security_high level ≡ true
      → Keeps sock (set_lm_of w sock p level)
  unfolding set_lm_of l2cap_set_lm rfcomm_set_lm
  Keeps-lm_of l2cap level e = Keeps-set_lm l2cap level e
  Keeps-lm_of rfcomm level e = Keeps-set_lm rfcomm level e
  Keeps-lm_of sco level e = Keeps-set_lm rfcomm level e

  -- The level is tested before it is looked up.
  pub Keeps-level : (p : Protocol) (level : ℤ) → Keeps sock (set_sec_level w sock p level)
  unfolding set_sec_level
  Keeps-level p level =
      Keeps-when _
        (λ e. Keeps-bind _ _ (Keeps-write w security _) λ set.
          Keeps-if _ (Keeps-pure true)
            (Keeps-if _ (Keeps-succeeds (Keeps-lm_of p level e)) (Keeps-pure false)))
        (Keeps-pure false)

  pub Keeps-l2cap_options :
      (imtu omtu mode : ℕ) → Keeps sock (set_l2cap_options w sock imtu omtu mode)
  unfolding set_l2cap_options
  Keeps-l2cap_options imtu omtu mode = Keeps-bind _ _ (Keeps-read w l2cap_options) (
      Keeps-answer _ (λ l2o. Keeps-succeeds (Keeps-write w l2cap_options _))
        (λ _. Keeps-pure false))

  pub Keeps-options : (p : Protocol) (o : SetOpts) → Keeps sock (set_options w sock p o)
  unfolding set_options l2cap_set_flushable set_priority
  Keeps-options l2cap o =
      Keeps-all_cons _ (Keeps-only_if _ (Keeps-l2cap_options o.imtu o.omtu o.mode)) (
        Keeps-all_cons _ (Keeps-only_if _ (Keeps-succeeds (Keeps-master w l2cap o.master))) (
          Keeps-all_cons _ (Keeps-only_if _ (Keeps-succeeds (Keeps-write w flushable _))) (
            Keeps-all_cons _ (Keeps-only_if _ (Keeps-succeeds (Keeps-write w priority _)))
              (Keeps-all_cons _ (Keeps-only_if _ (Keeps-level l2cap o.sec_level)) Keeps-all_nil))))
  Keeps-options rfcomm o = Keeps-all_cons _ (Keeps-only_if _ (Keeps-level rfcomm o.sec_level)) (
      Keeps-all_cons _ (Keeps-only_if _ (Keeps-succeeds (Keeps-master w rfcomm o.master)))
        Keeps-all_nil)
  Keeps-options sco o = Keeps-only_if _ (
      Keeps-bind _ _ (Keeps-read w sco_options) (
        Keeps-answer _ (λ mtu. Keeps-succeeds (Keeps-write w sco_options _))
          (λ _. Keeps-pure false)))

  pub Keeps-bt_io_set : (o : SetOpts) → Keeps sock (bt_io_set w sock o)
  unfolding bt_io_set
  Keeps-bt_io_set o =
      Keeps-bind _ _ (Keeps-type w) (Keeps-option _ (Keeps-pure false) (λ p. Keeps-options p o))
