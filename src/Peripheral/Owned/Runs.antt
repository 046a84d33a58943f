-- ===== src/Peripheral/Owned/Runs.antt =====
-- What the events of a client do to the callback data.
use btle_js.Prelude.{
  ℕ, ◌+◌, ◌≤◌, ◌≡◌, ◌∙◌, List, [], ◌∷◌, ◌++◌, Option, Outcome, ℤ, done, >>=-eq-done, arith,
}
use btle_js.Att.State.{Att, call_list, call_attribute, call_error, delete_request, on_connection}
use btle_js.Att.State
use btle_js.Att.Ledger.{count}
use btle_js.Att.Settle.{flights}
use btle_js.Peripheral.State.{Peripheral, Event, World, free}
use btle_js.Peripheral.Replies.{handle_list, on_read_attribute, on_read_notification, send_error}
use btle_js.Peripheral.Dispatch.{att_event, att_events, call_list_callback, call_attribute_callback}
use btle_js.Peripheral.Owned.{freeing, flying, alive}

freeing-cons :
    (event : State.Event) (rest : List State.Event) (x : ℕ)
    → count x (freeing (event ∷ rest)) ≡ count x (freeing (event ∷ [])) + count x (freeing rest)
freeing-cons event rest x = ground arith

flights-cons :
    (event : State.Event) (rest : List State.Event) (x : ℕ)
    → count x (flights (event ∷ rest)) ≡ count x (flights (event ∷ [])) + count x (flights rest)
flights-cons event rest x = ground arith

pub same_pair :
    {A B : Type 0} {a c : A} {b d : B}
    → ◌≡◌ {A = Outcome (A × B)} (done (a, b)) (done (c, d))
    → (a ≡ c) × (b ≡ d)
same_pair e = (ground arith, ground arith)

module _ {Value : Type 0} where
  pub flying-append :
      (l m : List (Event Value)) (x : ℕ)
      → count x (flying (l ++ m)) ≡ count x (flying l) + count x (flying m)
  flying-append [] m x = omega arith
  flying-append (event ∷ l) m x = ground (arith, flying-append l m x)

  -- Nothing is deleted but what callbacks were called with, and nothing comes to be.
  abbrev Spends :
      Peripheral Value → Peripheral Value → List State.Event → List (Event Value) → Type 0
  Spends p q events out =
      (q.att ≡ p.att)
      × (q.next ≡ p.next)
      × ((x : ℕ)
          → (alive p x ≤ alive q x + count x (freeing events))
            × (alive q x ≤ alive p x)
            × (count x (flying out) ≡ count x (flights events)))

  Spends-cons :
      (p r s : Peripheral Value) {q : Peripheral Value} (event : State.Event)
      (rest : List State.Event) (first more : List (Event Value)) {out : List (Event Value)}
      → Spends p r (event ∷ []) first
      → Spends r s rest more
      → (s ≡ q) × (first ++ more ≡ out)
      → Spends p q (event ∷ rest) out
  Spends-cons p r s event rest first more (a1, n1, f1) (a2, n2, f2) (sq, mo) =
      rw (← sq, ← mo)
        (
          a2 ∙ a1,
          n2 ∙ n1,
          λ x.
              let (u1, v1, w1) = f1 x in
              let (u2, v2, w2) = f2 x in
              (
                omega (arith, u1, u2, freeing-cons event rest x),
                omega (arith, v1, v2),
                omega (arith, w1, w2, flying-append first more x, flights-cons event rest x),
              ),
        )

  module _ (w : World Value) where
    list-Spends :
        (p q : Peripheral Value) (k status d : ℕ) (list : State.AttrList)
        (error : Option State.Message) (out : List (Event Value))
        → call_list_callback w p k status d list error ≡ done (q, out)
        → Spends p q (call_list k status d list error ∷ []) out
    unfolding call_list_callback handle_list send_error free
    list-Spends p q k status d list error out e =
        (ground arith, ground arith, λ x. (ground arith, ground arith, ground arith))

    attribute-Spends :
        (p q : Peripheral Value) (k status d : ℕ) (buf : Option (List ℕ)) (len : ℤ)
        (error : Option State.Message) (out : List (Event Value))
        → call_attribute_callback w p k status d buf len error ≡ done (q, out)
        → Spends p q (call_attribute k status d buf len error ∷ []) out
    unfolding call_attribute_callback on_read_attribute on_read_notification free
    attribute-Spends p q k status d buf len error out e =
        (ground arith, ground arith, λ x. (ground arith, ground arith, ground arith))

    event-Spends :
        (p q : Peripheral Value) (event : State.Event) (out : List (Event Value))
        → att_event w p event ≡ done (q, out)
        → Spends p q (event ∷ []) out
    unfolding att_event
    event-Spends p q (call_list k status d list error) out e =
        list-Spends p q k status d list error out e
    event-Spends p q (call_attribute k status d buf len error) out e =
        attribute-Spends p q k status d buf len error out e
    event-Spends p q (call_error k d message) out e =
        (ground arith, ground arith, λ x. (ground arith, ground arith, ground arith))
    event-Spends p q (delete_request rd) out e =
        (ground arith, ground arith, λ x. (ground arith, ground arith, ground arith))
    event-Spends p q (on_connection event) out e =
        (ground arith, ground arith, λ x. (ground arith, ground arith, ground arith))

    pub events-Spends :
        (p q : Peripheral Value) (events : List State.Event) (out : List (Event Value))
        → att_events w p events ≡ done (q, out)
        → Spends p q events out
    unfolding att_events
    events-Spends p q [] out e =
        (ground arith, ground arith, λ x. (ground arith, ground arith, ground arith))
    events-Spends p q (event ∷ rest) out e =
        let ((r, first), one, e) = >>=-eq-done (att_event w p event) _ e in
        let ((s, more), others, e) = >>=-eq-done (att_events w r rest) _ e in
        Spends-cons p r s event rest first more (event-Spends p r event first one)
          (events-Spends r s rest more others) (same_pair e)
