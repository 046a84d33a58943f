-- ===== src/Peripheral/Owned/Calls.antt =====
-- The methods keep what is held alive.
use btle_js.Prelude.{
  ℕ, zero, suc, ◌>>=◌, deref, ◌≡◌, sym, ◌∙◌, inl, inr, List, [], ◌∷◌, ◌++◌, Option, none, some,
  done, >>=-eq-done, Bool-cases, true, arith, length,
}
use btle_js.Att.Request
use btle_js.Peripheral.State.{
  Peripheral, Event, World, fn_find_information, fn_find_by_type, fn_read_by_type,
  fn_read_by_group_type, fn_read_attribute, fn_read_notification, fn_write,
}
use btle_js.Peripheral.Dispatch.{Step, after}
use btle_js.Peripheral.Methods.{request, handle_of, range_data, single_data, checked, throws}
use btle_js.Peripheral.Guards.{
  Method, invoke, accepts, invoke-Throws, find_info, find_type, read_type, read_group, read_one,
  listen, write_one, request_write,
}
use btle_js.Peripheral.Owned.{flying, IsOwned}
use btle_js.Peripheral.Owned.Steps.{run-IsOwned, request-IsOwned}
use btle_js.Peripheral.Owned.Runs.{same_pair}
use btle_js.Peripheral.Owned.Costs.{
  find_information-Pays, find_by_type_value-Pays, read_by_type-Pays, read_by_group_type-Pays,
  read_attribute-Pays, listen-Pays, write_command-Pays, write_request-Pays,
}

module _ {Value : Type 0} (w : World Value) where
  -- An argument, undefined when there are fewer.
  abbrev arg : ℕ → List Value → Value
  arg n [] = w.js.undefined
  arg zero (v ∷ rest) = v
  arg (suc n) (v ∷ rest) = arg n rest

  abbrev write_callback : List Value → Option Value
  write_callback (handle ∷ value ∷ k ∷ rest) = some k
  write_callback _ = none

  -- What a method does with arguments that it is meant for.
  abbrev body : Method → Peripheral Value → List Value → Step w
  body find_info p args = request w p (range_data w (arg 0 args) (arg 1 args) (arg 2 args)) λ a d.
      Request.find_information w.host a (handle_of w (arg 0 args)) (handle_of w (arg 1 args))
        fn_find_information d
  body find_type p args = request w p (range_data w (arg 0 args) (arg 1 args) (arg 4 args)) λ a d.
      Request.find_by_type_value w.host a (handle_of w (arg 0 args)) (handle_of w (arg 1 args))
        (w.uuid_of (w.js.string_of (arg 2 args))) (some (w.js.buffer_data (arg 3 args)))
        (length (w.js.buffer_data (arg 3 args))) fn_find_by_type d
  body read_type p args = request w p (range_data w (arg 0 args) (arg 1 args) (arg 3 args)) λ a d.
      Request.read_by_type w.host a (handle_of w (arg 0 args)) (handle_of w (arg 1 args))
        (w.uuid_of (w.js.string_of (arg 2 args))) fn_read_by_type d
  body read_group p args = request w p (range_data w (arg 0 args) (arg 1 args) (arg 3 args)) λ a d.
      Request.read_by_group_type w.host a (handle_of w (arg 0 args)) (handle_of w (arg 1 args))
        (w.uuid_of (w.js.string_of (arg 2 args))) fn_read_by_group_type d
  body read_one p args =
      request w p (single_data w (some (arg 1 args)))
        λ a d. Request.read_attribute w.host a (handle_of w (arg 0 args)) fn_read_attribute d
  body listen p args = request w p (single_data w (some (arg 1 args))) λ a d.
      done
        (Request.listen_for_notifications a (handle_of w (arg 0 args)) fn_read_notification d, [])
  body write_one p args = request w p (single_data w (write_callback args)) λ a d.
      Request.write_command w.host a (handle_of w (arg 0 args))
        (some (w.js.buffer_data (arg 1 args))) (length (w.js.buffer_data (arg 1 args)))
        (some fn_write) d
  body request_write p args = do
    a ← deref p.att
    after w p (
        Request.write_request w.host a (handle_of w (arg 0 args))
          (some (w.js.buffer_data (arg 1 args))) (length (w.js.buffer_data (arg 1 args))) none 0)

  invoke-body :
      (m : Method) (p : Peripheral Value) (args : List Value)
      → accepts w m args ≡ true
      → invoke w m p args ≡ body m p args
  unfolding invoke checked throws
  invoke-body m p args e = ground arith

  body-IsOwned :
      (m : Method) (p q : Peripheral Value) (fl : List ℕ) (args : List Value)
      (out : List (Event Value))
      → IsOwned p fl
      → body m p args ≡ done (q, out)
      → IsOwned q (flying out ++ fl)
  body-IsOwned find_info p q fl args out own r =
      request-IsOwned w p q fl own out _ _
        (λ a b ev tame e. find_information-Pays w.host a b ev tame _ _ p.next e) r
  body-IsOwned find_type p q fl args out own r =
      request-IsOwned w p q fl own out _ _
        (λ a b ev tame e. find_by_type_value-Pays w.host a b ev tame _ _ p.next _ _ _ e) r
  body-IsOwned read_type p q fl args out own r =
      request-IsOwned w p q fl own out _ _
        (λ a b ev tame e. read_by_type-Pays w.host a b ev tame _ _ p.next _ e) r
  body-IsOwned read_group p q fl args out own r =
      request-IsOwned w p q fl own out _ _
        (λ a b ev tame e. read_by_group_type-Pays w.host a b ev tame _ _ p.next _ e) r
  body-IsOwned read_one p q fl args out own r =
      request-IsOwned w p q fl own out _ _
        (λ a b ev tame e. read_attribute-Pays w.host a b ev tame _ p.next e) r
  body-IsOwned listen p q fl args out own r =
      request-IsOwned w p q fl own out _ _
        (λ a b ev tame e. listen-Pays w.host a b ev tame _ p.next e) r
  body-IsOwned write_one p q fl args out own r =
      request-IsOwned w p q fl own out _ _
        (λ a b ev tame e. write_command-Pays w.host a b ev tame _ p.next _ _ e) r
  body-IsOwned request_write p q fl args out own r =
      let (a, at, r') = >>=-eq-done (deref p.att) _ r in
      run-IsOwned w p q fl own out a _ (ground (arith, at))
        (λ b ev tame e. write_request-Pays w.host a b ev tame _ 0 _ _ e) r'

  pub invoke-IsOwned :
      (m : Method) (p q : Peripheral Value) (fl : List ℕ) (args : List Value)
      (out : List (Event Value))
      → IsOwned p fl
      → invoke w m p args ≡ done (q, out)
      → IsOwned q (flying out ++ fl)
  invoke-IsOwned m p q fl args out own r = elim (Bool-cases (accepts w m args)) [
    | inl good ↦ body-IsOwned m p q fl args out own (sym (invoke-body m p args good) ∙ r)
    | inr bad ↦
        let (message, thrown) = invoke-Throws w m p args bad in
        let (same, quiet) = same_pair (sym thrown ∙ r) in rw (← same, ← quiet) own
  ]
