-- ===== src/Btio/Legacy/Master.antt =====
-- The MASTER bit of the link mode, on a kernel without BT_SECURITY.
use Prim.Native.Nat.{bit_and}
use btle_js.Prelude.{
  ℕ, suc, ◌≤◌, ◌≡◌, refl, done, true, ℤ, pos, Outcome, Bool, Bool-cases, inl, inr, arith, ◌==◌,
}
use btle_js.Options.{SetOpts}
use btle_js.Btio.{l2cap, flushable, priority, Trace, Machine, only_if}
use btle_js.Btio.Set.{is_set, set_sec_level, l2cap_set}
use btle_js.Btio.Set.Keeps.{Keeps-write, Keeps-master, Keeps-l2cap_options}
use btle_js.Btio.Runs.{
  returns, Keeps-only_if, Keeps-succeeds, Passes, Passes-cons, Passes-nil, Keeps-Passes,
}
use btle_js.Btio.Legacy.{
  Documented, IsLegacy, lm_after, bits_of, set_sec_level-calls, lm_after-level_calls,
}

module _ (w : Machine) (d : Documented w) (sock : ℤ) where
  level-Passes :
      {base : ℕ} (k : IsLegacy w sock base) (m : ℕ) (level : ℤ) (t : Trace)
      → suc m ≤ 3
      → level ≡ pos (suc m)
      → Passes
          (λ t'. lm_after l2cap sock base t' ≡ bits_of w d sock (suc m))
          (only_if (is_set level) (set_sec_level w sock l2cap level) t)
  level-Passes {base} k m level t u e = rw e (
      rw (set_sec_level-calls w d sock k l2cap (suc m) t (omega arith) u)
        (returns λ e. lm_after-level_calls w d sock base k.errno l2cap (suc m) t))

  l2cap_set-Passes :
      {base : ℕ} (k : IsLegacy w sock base) (o : SetOpts) (m : ℕ) (t : Trace)
      → suc m ≤ 3
      → o.sec_level ≡ pos (suc m)
      → Passes (λ t'. lm_after l2cap sock base t' ≡ bits_of w d sock (suc m)) (l2cap_set w sock o t)
  unfolding l2cap_set
  l2cap_set-Passes {base} k o m t u e =
      let opts = Keeps-l2cap_options w (omega (arith, d.high)) o.imtu o.omtu o.mode in
      Passes-cons _ _ t (Keeps-Passes (Keeps-only_if _ opts) t) λ t1 _.
        Passes-cons _ _ t1
          (Keeps-Passes (Keeps-only_if _ (Keeps-succeeds (Keeps-master w l2cap o.master))) t1)
          λ t2 _.
            Passes-cons _ _ t2
              (Keeps-Passes (Keeps-only_if _ (Keeps-succeeds (Keeps-write w flushable _))) t2)
              λ t3 _.
                Passes-cons _ _ t3
                  (Keeps-Passes (Keeps-only_if _ (Keeps-succeeds (Keeps-write w priority _))) t3)
                  λ t4 _.
                    Passes-cons _ _ t4 (level-Passes k m o.sec_level t4 u e) λ t5 q. Passes-nil t5 q

  without_master : (n : ℕ) → bit_and (bits_of w d sock n) 1 ≡ 0
  without_master n = elim (Bool-cases (n == 1)) [
    | inl e ↦ rw e refl
    | inr e ↦ rw e (elim (Bool-cases (n == 2)) [ inl f ↦ rw f refl | inr f ↦ rw f refl ])
  ]

  -- With the documented constants, on a kernel without BT_SECURITY that keeps the link mode it is
  -- given, and for a security level of LOW, MEDIUM or HIGH: when `l2cap_set` succeeds, whatever the
  -- options say of `master`, the MASTER bit of the socket is clear.
  pub master_lost :
      {base : ℕ} (k : IsLegacy w sock base) (o : SetOpts) (m : ℕ) (t : Trace) {t' : Trace}
      → suc m ≤ 3
      → o.sec_level ≡ pos (suc m)
      → l2cap_set w sock o t ≡ done (true, t')
      → bit_and (lm_after l2cap sock base t') 1 ≡ 0
  master_lost {base} k o m t {t'} u e s =
      conclude (l2cap_set w sock o t) (l2cap_set-Passes k o m t u e) s
    where
      conclude :
          (r : Outcome (Bool × Trace))
          → Passes (λ t'. lm_after l2cap sock base t' ≡ bits_of w d sock (suc m)) r
          → r ≡ done (true, t')
          → bit_and (lm_after l2cap sock base t') 1 ≡ 0
      conclude _ (returns {a} {t = x} p) s =
          let passed : a ≡ true = ground arith in
          let last : x ≡ t' = ground arith in rw (← last) (rw (p passed) (without_master (suc m)))
