-- ===== src/Peripheral/Data.antt =====
-- The callback data behind a pointer, and the handles that arguments are converted to.
use btle_js.Prelude.{ℕ, ◌≡◌, ◌<◌, none, some, arith}
use btle_js.Js.{get_int_value}
use btle_js.Options.Ranges.{wrap-lt}
use btle_js.Peripheral.State.{Peripheral, CallbackData, World, alloc, free}
use btle_js.Peripheral.Methods.{handle_of}

module _ {Value : Type 0} where
  pub handle_of-lt : (w : World Value) (v : Value) → handle_of w v < 65536
  unfolding handle_of get_int_value
  handle_of-lt w v = wrap-lt 65536 (get_int_value w.js v w.junk).1 (omega arith)

  pub alloc_live :
      (p : Peripheral Value) (cd : CallbackData Value) → (alloc p cd).live p.next ≡ some cd
  unfolding alloc
  alloc_live p cd = ground arith

  pub free_live : (p : Peripheral Value) (d : ℕ) → (free p d).live d ≡ none
  unfolding free
  free_live p d = ground arith
