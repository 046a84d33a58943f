-- ===== src/Hci/Arguments.antt =====
-- src/hci.cc: what `HCI::StartAdvertising` makes of its arguments.
use btle_js.Prelude.{
  ℕ, ◌≡◌, refl, Outcome, done, List, [], ◌∷◌, Option, none, some, String, Bool, true, false, ◌&&◌,
  ◌||◌, if◌then◌else◌, ℤ, arith,
}
use btle_js.Host.{Host}
use btle_js.Js.{Js, wrap, get_int_value}
use btle_js.Options.{is_within}
use btle_js.Hci.{Run, Adapter, Parameters, note, throw_error, start_with}

-- What the arguments ask for: the options, the data and the scan response.
pub data Request (Value : Type 0) : Type 0 where
  refused : String → Request Value
  asked : Option Value → List ℕ → Option (List ℕ) → Request Value

module _ {Value : Type 0} (js : Js Value) where
  abbrev second_wrong : Request Value
  second_wrong = refused "Second parameter must be a Buffer"

  -- The third argument, behind options.
  scan_of : Option Value → List ℕ → List Value → Request Value
  scan_of options content [] = asked options content none
  scan_of options content (scan ∷ rest) =
      if js.is_buffer scan
      then asked options content (some (js.buffer_data scan))
      else if js.is_null scan
      then asked options content none
      else refused "Third parameter must be a Buffer"

  behind_options : Option Value → List Value → Request Value
  unfolding scan_of
  behind_options options [] = refused "Wrong number of arguments"
  behind_options options (content ∷ rest) =
      if js.is_buffer content then scan_of options (js.buffer_data content) rest else second_wrong

  behind_buffer : List ℕ → List Value → Request Value
  behind_buffer content [] = asked none content none
  behind_buffer content (scan ∷ rest) =
      if js.is_buffer scan then asked none content (some (js.buffer_data scan)) else second_wrong

  unfoldable pub read_arguments : List Value → Request Value
  unfolding behind_options behind_buffer
  read_arguments [] = refused "Wrong number of arguments"
  read_arguments (first ∷ rest) =
      if js.is_object first || js.is_null first
      then behind_options (if js.is_null first then none else some first) rest
      else if js.is_buffer first
      then behind_buffer (js.buffer_data first) rest
      else refused "First parameter must be an object, or a buffer"

  module _ (h : Host) (junk : ℤ) where
    -- `val` after `getIntValue`; an option that is no number is thrown for, and read all the same.
    number_of : Run → Value → String → Run × ℤ
    unfolding get_int_value
    number_of r value message = (
      if js.is_number value then r else note r (throw_error message),
      (get_int_value js value junk).1,
    )

    adv_type : Run → Option Value → Run × ℕ
    unfolding number_of
    adv_type r none = (r, 0)
    adv_type r (some value) =
        let (r, val) = number_of r value "advType option must be integer" in
        (
          if is_within 0 3 val
              then r
              else note r (throw_error "advType option must be between 0 and 3"),
          wrap 256 val,
        )

    interval : Run → Option Value → String → Run × ℕ
    unfolding number_of
    interval r none message = (r, h.htobs 0x0800)
    interval r (some value) message =
        let (r, val) = number_of r value message in (r, h.htobs (wrap 65536 val))

    channels : Run → Option Value → Run × ℕ
    unfolding number_of
    channels r none = (r, 0)
    channels r (some value) =
        let (r, val) = number_of r value "chanMap option must be integer" in (r, wrap 256 val)

    unfoldable pub read_parameters : Run → (String → Option Value) → Run × Parameters
    unfolding adv_type interval channels
    read_parameters r options =
        let (r, advtype) = adv_type r (options "advType") in
        let (r, least) = interval r (options "minInterval") "minInterval option must be integer" in
        let (r, most) = interval r (options "maxInterval") "maxInterval option must be integer" in
        let (r, channel_map) = channels r (options "chanMap") in
        (
          r,
          record {
            min_interval = least;
            max_interval = most;
            advtype = advtype;
            chan_map = channel_map;
          },
        )

    -- `HCI::StartAdvertising`
    unfoldable pub start :
        Adapter → (Value → String → Option Value) → Run → List Value → Outcome Run
    unfolding read_parameters start_with
    start adapter properties r args = elim (read_arguments args) [
      | refused message ↦ done (note r (throw_error message))
      | asked none content scan ↦ start_with adapter r none content scan
      | asked (some options) content scan ↦
          let (r, params) = read_parameters r (properties options) in
          start_with adapter r (some params) content scan
    ]

  -- The arguments for which `HCI::StartAdvertising` is written, if a buffer is an object.
  abbrev pub accepts : List Value → Bool
  accepts (first ∷ content ∷ []) = (js.is_object first || js.is_null first) && js.is_buffer content
  accepts (first ∷ content ∷ scan ∷ rest) =
      (js.is_object first || js.is_null first)
      && js.is_buffer content
      && (js.is_buffer scan || js.is_null scan)
  accepts _ = false

  abbrev message_of : Request Value → String
  message_of (refused message) = message
  message_of _ = ""

  read_arguments-refused :
      (args : List Value)
      → ((v : Value) → js.is_buffer v ≡ true → js.is_object v ≡ true)
      → accepts args ≡ false
      → (message : String) × (read_arguments args ≡ refused message)
  unfolding read_arguments
  read_arguments-refused [] law e = (message_of (read_arguments []), ground arith)
  read_arguments-refused (first ∷ rest) law e =
      (message_of (read_arguments (first ∷ rest)), ground (arith, law first))

  -- Where every buffer is an object, a call without options or null in front of the data throws one
  -- exception and does nothing else: a buffer cannot come first.
  start-Throws :
      (h : Host) (junk : ℤ) (adapter : Adapter) (properties : Value → String → Option Value)
      (r : Run) (args : List Value)
      → ((v : Value) → js.is_buffer v ≡ true → js.is_object v ≡ true)
      → accepts args ≡ false
      → (message : String) × (start h junk adapter properties r args
          ≡ done (note r (throw_error message)))
  unfolding start
  start-Throws h junk adapter properties r args law e =
      let (message, no_request) = read_arguments-refused args law e in
      (message, rw (start, no_request) refl)
