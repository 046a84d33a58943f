-- ===== src/Tests/Pages.antt =====
-- Runs against devices whose pages do not come from a table.
use btle_js.Prelude.{
  ℕ, ◌+◌, ◌*◌, ◌%◌, ◌/◌, ◌≡◌, refl, ap, List, [], ◌∷◌, map, none, done, stuck, pos, arith, some,
}
use btle_js.Host.{uuid16}
use btle_js.Parse.{AttributeInfo}
use btle_js.Js.{get_int_value}
use btle_js.Att.Collect.{Page, Packet, page_packet}
use btle_js.Peripheral.State.{seen, Peripheral, Event, null, array, call}
use btle_js.Peripheral.Methods.{handle_of}
use btle_js.Peripheral.Replies.{get_attribute_info}
use btle_js.Discovery.{discover}
use btle_js.Discovery.Progress.{Pages, Moves, StaysBelow, discover_ends, discover_never_ends}
use btle_js.Tests.Sample.{host, host_laws}
use btle_js.Tests.Values.{Value, number, function}
use btle_js.Tests.Device.{world, ready, att, called}

abbrev one : ℕ → Page
one handle = record {
  front = [];
  last = record { handle = handle; type = uuid16 0x2800 };
  slack = [];
}

-- An attribute at the start of whatever is asked for.
abbrev echo : List ℕ → Packet
echo (op ∷ s ∷ s' ∷ rest) = page_packet host (one ((s + 256 * s') % 65536))
echo pdu = record { buffer = []; nread = 0 }

echo-Pages : Pages host 4 echo Moves
echo-Pages = record {
  page = λ s. one (s % 65536);
  answer = λ s h.
      let same : (s % 256 + 256 * (s / 256)) % 65536 ≡ s % 65536 = omega arith in
      ap (λ v. page_packet host (one v)) same;
  short = λ s h. ((omega arith, omega arith), tt);
  ensures = λ s h. omega arith;
}

discover_ends_example :
    (list : List AttributeInfo) × (p' : Peripheral Value) × (events : List (Event Value))
    × (discover world echo 4 ready (number (pos 1) ∷ number (pos 4) ∷ function 9 ∷ [])
        ≡ done (p', events))
    × (p'.att ≡ some att)
    × (p'.live 1 ≡ none)
    × (seen events
        ≡ call (function 9) (null ∷ array (map (get_attribute_info world) list) ∷ []) ∷ [])
unfolding handle_of get_int_value
discover_ends_example =
    discover_ends world host_laws echo ready att (number (pos 1)) (number (pos 4)) (function 9) []
      called echo-Pages 4 (omega arith) (omega arith)

-- The same attribute again and again.
abbrev repeat : List ℕ → Packet
repeat pdu = page_packet host (one 2)

repeat-Pages : Pages host 4 repeat (StaysBelow 4)
repeat-Pages = record {
  page = λ s. one 2;
  answer = λ s h. refl;
  short = λ s h. ((omega arith, omega arith), tt);
  ensures = λ s h. omega arith;
}

discover_never_ends_example :
    discover world repeat 9 ready (number (pos 1) ∷ number (pos 4) ∷ function 9 ∷ []) ≡ stuck
unfolding handle_of get_int_value
discover_never_ends_example =
    discover_never_ends world host_laws repeat ready att (number (pos 1)) (number (pos 4))
      (function 9) [] called repeat-Pages 9
