-- ===== src/Peripheral/Owned/Steps.antt =====
-- Every step of the object keeps what is held alive.
use btle_js.Prelude.{
  ℕ, ◌+◌, ◌≤◌, ◌≡◌, ap, sym, ◌∙◌, inl, inr, List, [], ◌∷◌, ◌++◌, some, Outcome, done, >>=-eq-done,
  arith, Option-cases,
}
use mathlib.Core.Path.{subst}
use btle_js.Att.State.{Att}
use btle_js.Att.State
use btle_js.Att.Ledger.{count, count-append}
use btle_js.Peripheral.State.{Peripheral, CallbackData, Event, World, alloc}
use btle_js.Peripheral.Dispatch.{after}
use btle_js.Peripheral.Methods.{request}
use btle_js.Peripheral.Owned.{flying, alive, holds_all, IsOwned, IsTame}
use btle_js.Peripheral.Owned.Runs.{events-Spends}
use btle_js.Peripheral.Owned.Costs.{Pays}

pub same_some : (a b : Att) → some a ≡ some b → a ≡ b
same_some a b e = ground arith

module _ {Value : Type 0} (w : World Value) (p q : Peripheral Value) (fl : List ℕ)
    (own : IsOwned p fl) (out : List (Event Value)) where
  pub after-IsOwned :
      (p' : Peripheral Value) (a b : Att) (events : List State.Event) (new : List ℕ)
      → p.att ≡ some a
      → Pays a b events new
      → ((x : ℕ) → alive p' x ≡ alive p x + count x new)
      → ((x : ℕ) → p'.next ≤ x → alive p' x ≡ 0)
      → after w p' (done (b, events)) ≡ done (q, out)
      → IsOwned q (flying out ++ fl)
  unfolding after
  after-IsOwned p' a b events new at (tame, pays) grown fresh r =
      let (same, next, spends) = events-Spends w (record p' { att = some b }) q events out r in
      record {
        owned = λ x.
            let (u, v, k) = spends x in
            rw same (
              omega (
                arith,
                pays x,
                grown x,
                u,
                k,
                ap (λ o. holds_all o x) at,
                own.owned x,
                count-append x (flying out) fl,
              ));
        fresh =
            λ x le. let (u, v, k) = spends x in omega (arith, v, fresh x (omega (arith, next, le)));
        tame = λ a' e. subst IsTame (same_some b a' (sym same ∙ e)) tame;
      }

  -- The run of a client that was there already, without new callback data.
  pub run-IsOwned :
      (a : Att) (run : Outcome (Att × List State.Event))
      → p.att ≡ some a
      → ((b : Att) (events : List State.Event)
          → IsTame a
          → run ≡ done (b, events)
          → Pays a b events [])
      → after w p run ≡ done (q, out)
      → IsOwned q (flying out ++ fl)
  unfolding after
  run-IsOwned a run at pays r =
      let ((b, events), e, r') = >>=-eq-done run _ r in
      after-IsOwned p a b events [] at (pays b events (own.tame a at) e) (λ x. omega arith)
        own.fresh r'

  pub request-IsOwned :
      (cd : CallbackData Value) (ask : Att → ℕ → Outcome (Att × List State.Event))
      → ((a b : Att) (events : List State.Event)
          → IsTame a
          → ask a p.next ≡ done (b, events)
          → Pays a b events (p.next ∷ []))
      → request w p cd ask ≡ done (q, out)
      → IsOwned q (flying out ++ fl)
  unfolding request after alloc
  request-IsOwned cd ask pays r = elim (Option-cases p.att) [
    | inl off ↦ absurd (ground (arith, off))
    | inr (a, at) ↦
        let ((b, events), e, r') = >>=-eq-done (ask a p.next) _ (rw at at r) in
        after-IsOwned (alloc p cd) a b events (p.next ∷ []) at (pays a b events (own.tame a at) e)
          (λ x. ground (arith, own.fresh p.next (omega arith)))
          (λ x le. ground (arith, own.fresh x (omega arith))) r'
  ]
