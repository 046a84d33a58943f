-- ===== src/Btio/Get/Counts.antt =====
-- How many values `bt_io_get` stores, for any arguments that end.
use btle_js.Prelude.{
  ℕ, ◌≤◌, ◌≡◌, ◌⊎◌, inl, inr, refl, Outcome, List, [], ◌∷◌, Option, none, some, Bool, true, false,
  length, Bool-cases, Option-cases, if◌then◌else◌, ℤ, arith,
}
use btle_js.Btio.{
  Protocol, l2cap, rfcomm, sco, Address, l2cap_options, sco_options, Answer, ok, failed, Trace,
  Machine, M, pure, ◌>>=◌,
}
use btle_js.Btio.Set.Keeps.{Keeps-read, Keeps-type}
use btle_js.Btio.Traces.{Uses, start, Uses-trans}
use btle_js.Btio.Runs.{Returns, returns, Returns-bind, Keeps}
use btle_js.Btio.Wanted.{Wanted, Value, is_end, store_next, get_all}
use btle_js.Btio.Get.{
  l2cap_option, rfcomm_option, sco_option, with_peers, l2cap_get, rfcomm_get, sco_get, get_valist,
  bt_io_get,
}
use btle_js.Btio.Get.Keeps.{Keeps-peers, Keeps-l2cap_option, Keeps-rfcomm_option, Keeps-sco_option}

-- What stands before BT_IO_OPT_INVALID, if that is there.
abbrev pub before_end : List Wanted → Option (List Wanted)
before_end [] = none
before_end (opt ∷ opts) =
    if is_end opt
    then some []
    else elim (before_end opts) [ none ↦ none | some os ↦ some (opt ∷ os) ]

-- True with one value for each wanted one, or false with fewer; and calls about `sock` alone.
pub record Counts (sock : ℤ) (t : Trace) (wanted : List Wanted) (r : Bool × List Value) (t' : Trace)
    : Type 0 where
  pub uses : Uses sock t t'
  pub counted :
      ((r.0 ≡ true) × (length r.1 ≡ length wanted)) ⊎ ((r.0 ≡ false) × (length r.1 ≤ length wanted))

module _ {sock : ℤ} where
  none-Counts :
      (t t' : Trace) (wanted : List Wanted) → Uses sock t t' → Counts sock t wanted (false, []) t'
  none-Counts t t' wanted u = record { uses = u; counted = inr (refl, omega arith) }

  more-Counts :
      (t t' t'' : Trace) (opt : Wanted) (wanted : List Wanted) (v : Value) (r : Bool × List Value)
      → Uses sock t t'
      → Counts sock t' wanted r t''
      → Counts sock t (opt ∷ wanted) (r.0, v ∷ r.1) t''
  more-Counts t t' t'' opt wanted v r u c = record {
    uses = Uses-trans u c.uses;
    counted = elim c.counted [
      | inl (h, n) ↦ inl (h, omega (arith, n))
      | inr (h, n) ↦ inr (h, omega (arith, n))
    ];
  }

  store_next-Counts :
      (rest : M (Bool × List Value)) (t t' : Trace) (opt : Wanted) (wanted : List Wanted)
      (v : Option Value)
      → Uses sock t t'
      → Returns (Counts sock t' wanted) (rest t')
      → Returns (Counts sock t (opt ∷ wanted)) (store_next rest v t')
  unfolding store_next
  store_next-Counts rest t t' opt wanted none u r = returns (none-Counts t t' (opt ∷ wanted) u)
  store_next-Counts rest t t' opt wanted (some v) u r =
      Returns-bind rest _ t' r
        λ values t'' c. returns (more-Counts t t' t'' opt wanted v values u c)

  get_all-Counts :
      (get : Wanted → M (Option Value))
      → ((opt : Wanted) → Keeps sock (get opt))
      → (opts wanted : List Wanted) (t : Trace) → before_end opts ≡ some wanted
      → Returns (Counts sock t wanted) (get_all get opts t)
  unfolding get_all
  get_all-Counts get k [] wanted t e = absurd (ground arith)
  get_all-Counts get k (opt ∷ opts) wanted t e = elim (Bool-cases (is_end opt)) [
    | inl last ↦
        let none_left : [] ≡ wanted = ground arith in
        rw last (rw (← none_left) (returns (record { uses = start; counted = inl (refl, refl) })))
    | inr more ↦ elim (Option-cases (before_end opts)) [
      | inl n ↦ absurd (ground arith)
      | inr (os, o) ↦
          let whole : opt ∷ os ≡ wanted = ground arith in
          rw more (
            rw (← whole) (
              Returns-bind (get opt) _ t ((k opt).runs t) λ v t' u.
                store_next-Counts (get_all get opts) t t' opt os v u
                  (get_all-Counts get k opts os t' o)))
    ]
  ]

  later-Counts :
      {t t' : Trace} {wanted : List Wanted} {o : Outcome ((Bool × List Value) × Trace)}
      → Uses sock t t'
      → Returns (Counts sock t' wanted) o
      → Returns (Counts sock t wanted) o
  later-Counts u (returns c) = returns (record { uses = Uses-trans u c.uses; counted = c.counted })

  -- A step, and a loop that counts behind it.
  bind-Counts :
      {A : Type 0} (m : M A) (f : A → M (Bool × List Value)) (wanted : List Wanted) (t : Trace)
      → Keeps sock m
      → ((a : A) (t' : Trace) → Returns (Counts sock t' wanted) (f a t'))
      → Returns (Counts sock t wanted) ((m >>= f) t)
  bind-Counts m f wanted t k l = Returns-bind m f t (k.runs t) λ a t' u. later-Counts u (l a t')

  refused-Counts :
      (wanted : List Wanted) (t : Trace) → Returns (Counts sock t wanted) (pure (false, []) t)
  refused-Counts wanted t = returns (none-Counts t t wanted start)

  on_answer :
      {A : Type 0} (f : Answer A → M (Bool × List Value)) (wanted : List Wanted)
      → ((x : A) (t : Trace) → Returns (Counts sock t wanted) (f (ok x) t))
      → ((n : ℕ) (t : Trace) → Returns (Counts sock t wanted) (f (failed n) t))
      → (a : Answer A) (t : Trace) → Returns (Counts sock t wanted) (f a t)
  on_answer f wanted k l (ok x) t = k x t
  on_answer f wanted k l (failed n) t = l n t

  on_option :
      {A : Type 0} (f : Option A → M (Bool × List Value)) (wanted : List Wanted)
      → ((t : Trace) → Returns (Counts sock t wanted) (f none t))
      → ((x : A) (t : Trace) → Returns (Counts sock t wanted) (f (some x) t))
      → (a : Option A) (t : Trace) → Returns (Counts sock t wanted) (f a t)
  on_option f wanted k l none t = k t
  on_option f wanted k l (some x) t = l x t

module _ (w : Machine) (sock : ℤ) (opts wanted : List Wanted)
    (e : before_end opts ≡ some wanted) where
  with_peers-Counts :
      (p : Protocol) (get : Address p × Address p → Wanted → M (Option Value))
      → ((both : Address p × Address p) (opt : Wanted) → Keeps sock (get both opt))
      → (t : Trace) → Returns (Counts sock t wanted) (with_peers w sock p get opts t)
  unfolding with_peers
  with_peers-Counts p get k t = bind-Counts _ _ wanted t (Keeps-peers w p) (
      on_option _ wanted (refused-Counts wanted)
        λ both t'. get_all-Counts (get both) (k both) opts wanted t' e)

  get-Counts :
      (p : Protocol) (t : Trace) → Returns (Counts sock t wanted) (get_valist w sock p opts t)
  unfolding get_valist l2cap_get rfcomm_get sco_get
  get-Counts l2cap t = bind-Counts _ _ wanted t (Keeps-read w l2cap_options) (
      on_answer _ wanted
        (λ l2o t'.
          with_peers-Counts l2cap (λ peers. l2cap_option w sock l2o peers)
            (λ both. Keeps-l2cap_option w l2o both) t')
        (λ n. refused-Counts wanted))
  get-Counts rfcomm t = with_peers-Counts rfcomm (rfcomm_option w sock) (Keeps-rfcomm_option w) t
  get-Counts sco t = bind-Counts _ _ wanted t (Keeps-read w sco_options) (
      on_answer _ wanted
        (λ size t'.
          with_peers-Counts sco (λ peers. sco_option w sock size peers)
            (λ both. Keeps-sco_option w size both) t')
        (λ n. refused-Counts wanted))

  -- For arguments that BT_IO_OPT_INVALID ends, whatever the kernel answers: `bt_io_get` ends, calls
  -- the kernel about that socket alone, and returns true with one value for each option before
  -- BT_IO_OPT_INVALID, or false with no more values than that.
  pub bt_io_get-Counts : (t : Trace) → Returns (Counts sock t wanted) (bt_io_get w sock opts t)
  unfolding bt_io_get
  bt_io_get-Counts t =
      bind-Counts _ _ wanted t (Keeps-type w)
        (on_option _ wanted (refused-Counts wanted) λ p t'. get-Counts p t')
