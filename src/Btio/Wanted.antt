-- ===== src/Btio/Wanted.antt =====
-- src/btio.h: `BtIOOption`. src/btio.c: the loop of the functions that read options.
use btle_js.Prelude.{
  ℕ, List, [], ◌∷◌, Option, none, some, String, Bool, true, false, ◌==◌, if◌then◌else◌,
}
use btle_js.Btio.{Answer, ok, failed, M, pure, out_of_bounds, ◌>>=◌}

-- `BtIOOption`
pub data Wanted : Type 0 where
  invalid : Wanted
  source : Wanted
  source_bdaddr : Wanted
  source_type : Wanted
  dest : Wanted
  dest_bdaddr : Wanted
  dest_type : Wanted
  defer_timeout : Wanted
  sec_level : Wanted
  key_size : Wanted
  channel : Wanted
  source_channel : Wanted
  dest_channel : Wanted
  psm : Wanted
  cid : Wanted
  mtu : Wanted
  omtu : Wanted
  imtu : Wanted
  master : Wanted
  handle : Wanted
  class : Wanted
  mode : Wanted
  flush : Wanted
  prio : Wanted

-- What is stored behind one of the pointers.
pub data Value : Type 0 where
  text : String → Value
  address : ℕ → Value
  number : ℕ → Value
  flag : Bool → Value
  bytes : List ℕ → Value

abbrev pub is_end : Wanted → Bool
is_end invalid = true
is_end _ = false

-- `return false`, or the value and the rest of the loop.
unfoldable pub store_next : M (Bool × List Value) → Option Value → M (Bool × List Value)
store_next rest none = pure (false, [])
store_next rest (some value) = rest >>= λ r. pure (r.0, value ∷ r.1)

-- `opt = opt1; while (opt != BT_IO_OPT_INVALID) { …; opt = va_arg(args, int); }`: whether it returned
-- true, and what it stored. Without BT_IO_OPT_INVALID at the end it reads past the arguments.
unfoldable pub get_all : (Wanted → M (Option Value)) → List Wanted → M (Bool × List Value)
unfolding store_next
get_all get [] = out_of_bounds
get_all get (opt ∷ opts) =
    if is_end opt then pure (true, []) else (get opt >>= store_next (get_all get opts))

-- What is stored when the call succeeds; `return false` is `none`.
unfoldable pub stored : {A : Type 0} → M (Answer A) → (A → Value) → M (Option Value)
stored m value = do a ← m; elim a [ ok x ↦ pure (some (value x)) | failed _ ↦ pure none ]

-- `a ? f(a) : f(b)`
unfoldable pub first_of : (ℕ → ℕ) → ℕ → ℕ → ℕ
first_of f a b = if a == 0 then f b else f a
