-- ===== src/Btio/Get/Keeps.antt =====
-- Reading an option calls the kernel about the one socket.
use btle_js.Prelude.{ℕ, refl, none, ℤ}
use btle_js.Btio.{
  Protocol, l2cap, rfcomm, sco, SockaddrL2, SockaddrRc, SockaddrSco, L2capOptions, lm, security,
  flushable, priority, defer_setup, conninfo, ConnInfo, Answer, getsockname, getpeername, Machine,
  M,
}
use btle_js.Btio.Set.Keeps.{Keeps-read}
use btle_js.Btio.Runs.{
  Keeps, Keeps-pure, Keeps-ask, Keeps-bind, Keeps-answer, Keeps-option, Keeps-if,
}
use btle_js.Btio.Wanted.{
  Wanted, defer_timeout, sec_level, key_size, master, handle, class, flush, prio, Value, stored,
}
use btle_js.Btio.Get.{
  get_lm, get_lm_of, get_sec_level, stored_level, get_key_size, l2cap_get_flushable, get_priority,
  get_info, get_master, get_defer, get_peers, l2cap_option, rfcomm_option, sco_option,
}

module _ {sock : ℤ} where
  Keeps-stored :
      {A : Type 0} (m : M (Answer A)) (value : A → Value)
      → Keeps sock m
      → Keeps sock (stored m value)
  unfolding stored
  Keeps-stored m value k =
      Keeps-bind _ _ k (Keeps-answer _ (λ x. Keeps-pure _) (λ n. Keeps-pure none))

module _ (w : Machine) {sock : ℤ} where
  Keeps-lm : (p : Protocol) → Keeps sock (get_lm w sock p)
  unfolding get_lm
  Keeps-lm p =
      Keeps-bind _ _ (Keeps-read w (lm p))
        (Keeps-answer _ (λ opt. Keeps-pure _) (λ n. Keeps-pure none))

  Keeps-lm_of : (p : Protocol) → Keeps sock (get_lm_of w sock p)
  unfolding get_lm_of
  Keeps-lm_of l2cap = Keeps-lm l2cap
  Keeps-lm_of rfcomm = Keeps-lm rfcomm
  Keeps-lm_of sco = Keeps-lm rfcomm

  Keeps-sec_level : (p : Protocol) → Keeps sock (get_sec_level w sock p)
  unfolding get_sec_level
  Keeps-sec_level p =
      Keeps-bind _ _ (Keeps-read w security)
        (Keeps-answer _ (λ sec. Keeps-pure _) (λ n. Keeps-if _ (Keeps-lm_of p) (Keeps-pure none)))

  Keeps-level : (p : Protocol) → Keeps sock (stored_level w sock p)
  unfolding stored_level
  Keeps-level p =
      Keeps-bind _ _ (Keeps-sec_level p) (Keeps-option _ (Keeps-pure none) (λ n. Keeps-pure _))

  Keeps-key_size : Keeps sock (get_key_size w sock)
  unfolding get_key_size
  Keeps-key_size = Keeps-stored _ _ (Keeps-read w security)

  Keeps-flushable : Keeps sock (l2cap_get_flushable w sock)
  unfolding l2cap_get_flushable
  Keeps-flushable = Keeps-stored _ _ (Keeps-read w flushable)

  Keeps-priority : Keeps sock (get_priority w sock)
  unfolding get_priority
  Keeps-priority = Keeps-stored _ _ (Keeps-read w priority)

  Keeps-info : (p : Protocol) (value : ConnInfo → Value) → Keeps sock (get_info w sock p value)
  unfolding get_info
  Keeps-info p value = Keeps-stored _ value (Keeps-read w (conninfo p))

  Keeps-master : (p : Protocol) → Keeps sock (get_master w sock p)
  unfolding get_master
  Keeps-master p = Keeps-stored _ _ (Keeps-read w (lm p))

  Keeps-defer : Keeps sock (get_defer w sock)
  unfolding get_defer
  Keeps-defer = Keeps-stored _ _ (Keeps-read w defer_setup)

  pub Keeps-peers : (p : Protocol) → Keeps sock (get_peers w sock p)
  unfolding get_peers
  Keeps-peers p = Keeps-bind _ _ (Keeps-ask _ (λ a. getsockname sock p a) λ a. refl) (
      Keeps-answer _
        (λ s.
          Keeps-bind _ _ (Keeps-ask _ (λ a. getpeername sock p a) λ a. refl)
            (Keeps-answer _ (λ d. Keeps-pure _) (λ n. Keeps-pure none)))
        (λ n. Keeps-pure none))

  pub Keeps-l2cap_option :
      (l2o : L2capOptions) (peers : SockaddrL2 × SockaddrL2) (opt : Wanted)
      → Keeps sock (l2cap_option w sock l2o peers opt)
  unfolding l2cap_option
  Keeps-l2cap_option l2o peers defer_timeout = Keeps-defer
  Keeps-l2cap_option l2o peers sec_level = Keeps-level l2cap
  Keeps-l2cap_option l2o peers key_size = Keeps-key_size
  Keeps-l2cap_option l2o peers master = Keeps-master l2cap
  Keeps-l2cap_option l2o peers handle = Keeps-info l2cap _
  Keeps-l2cap_option l2o peers class = Keeps-info l2cap _
  Keeps-l2cap_option l2o peers flush = Keeps-flushable
  Keeps-l2cap_option l2o peers prio = Keeps-priority
  Keeps-l2cap_option l2o peers _ = Keeps-pure _

  pub Keeps-rfcomm_option :
      (peers : SockaddrRc × SockaddrRc) (opt : Wanted) → Keeps sock (rfcomm_option w sock peers opt)
  unfolding rfcomm_option
  Keeps-rfcomm_option peers defer_timeout = Keeps-defer
  Keeps-rfcomm_option peers sec_level = Keeps-level rfcomm
  Keeps-rfcomm_option peers master = Keeps-master rfcomm
  Keeps-rfcomm_option peers handle = Keeps-info rfcomm _
  Keeps-rfcomm_option peers class = Keeps-info rfcomm _
  Keeps-rfcomm_option peers _ = Keeps-pure _

  pub Keeps-sco_option :
      (size : ℕ) (peers : SockaddrSco × SockaddrSco) (opt : Wanted)
      → Keeps sock (sco_option w sock size peers opt)
  unfolding sco_option
  Keeps-sco_option size peers handle = Keeps-info sco _
  Keeps-sco_option size peers class = Keeps-info sco _
  Keeps-sco_option size peers _ = Keeps-pure _
