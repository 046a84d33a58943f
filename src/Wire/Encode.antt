-- ===== src/Wire/Encode.antt =====
-- The PDUs that the two `Att::encode` write.
use btle_js.Prelude.{
  ℕ, zero, suc, ap, sym, ◌∙◌, append-nil, lt→ltb, leb, ◌+◌, ◌-◌, ◌/◌, ◌%◌, ◌≤◌, ◌<◌, ◌≡◌, refl,
  List, [], ◌∷◌, ◌++◌, none, some, Outcome, Option, fault, stuck, done, ltb-false, Bool-cases, inl,
  inr, length, take, drop, length-take, take_prefix, take_all, arith,
}
use btle_js.Host.{Host, HostLaws}
use btle_js.Wire.{att_put_u16, copy_value, truncate_to, write_value, encode, sent, contents}
use btle_js.Wire.Memory.{write_at_next, load_bytes-take}

-- The header of a PDU with one handle.
abbrev pub handle_header : ℕ → ℕ → List ℕ
handle_header opcode handle = opcode ∷ (handle % 256) ∷ (handle / 256) ∷ []

-- The header of a PDU with a range of handles.
abbrev pub range_header : ℕ → ℕ → ℕ → List ℕ
range_header opcode s e = opcode ∷ (s % 256) ∷ (s / 256) ∷ (e % 256) ∷ (e / 256) ∷ []

-- What was sent tells the buffer and the length that `encode` gave.
pub sent_lem :
    (m : Outcome (Option (List ℕ) × ℕ)) {bytes : List ℕ}
    → sent m ≡ done bytes
    → (base : Option (List ℕ)) × (len : ℕ) × (m ≡ done (base, len)) × (contents base len ≡ bytes)
sent_lem (done (base, len)) e = (base, len, refl, ground arith)
sent_lem fault e = cc
sent_lem stuck e = cc

pub copy_value_next :
    (pre rest value : List ℕ) (off n : ℕ)
    → off ≡ length pre
    → n ≤ length value
    → n ≤ length rest
    → copy_value (pre ++ rest) off (some value) n ≡ done ((pre ++ take n value) ++ drop n rest)
unfolding copy_value
copy_value_next pre rest value off n e hv hr =
    let len : length (take n value) ≡ n = omega (arith, length-take n value) in
    rw (load_bytes-take value n hv, write_at_next pre rest (take n value) off e (omega arith), len)

write_value_next :
    (pre rest value : List ℕ) (n : ℕ)
    → 3 ≡ length pre
    → n ≤ length value
    → n ≤ length rest
    → write_value (pre ++ rest) (some value) n ≡ done ((pre ++ take n value) ++ drop n rest)
unfolding write_value
write_value_next pre rest value zero e hv hr = rw (append-nil pre)
write_value_next pre rest value (suc n) e hv hr =
    rw (lt→ltb 0 (suc n) (omega arith)) (copy_value_next pre rest value 3 (suc n) e hv hr)

-- `room` is what the buffer has behind the header.
fits_value : (room : ℕ) (value : List ℕ) → truncate_to (3 + room) 3 (length value) ≤ length value
unfolding truncate_to
fits_value room value = ground arith

fits_rest : (room vlen : ℕ) → truncate_to (3 + room) 3 vlen ≤ room
unfolding truncate_to
fits_rest room vlen = ground arith

take-truncate :
    (room : ℕ) (value : List ℕ)
    → take (truncate_to (3 + room) 3 (length value)) value ≡ take room value
unfolding truncate_to
take-truncate room value = elim (Bool-cases (leb (length value) room)) [
  | inl fits ↦ take_all _ value (ground arith) ∙ sym (take_all room value (ground arith))
  | inr over ↦ ap (λ (k : ℕ). take k value) (ground arith)
]

module _ (h : Host) (laws : HostLaws h) where
  pub put_u16_next :
      (v off : ℕ) (pre rest : List ℕ)
      → v < 65536
      → off ≡ length pre
      → 2 ≤ length rest
      → att_put_u16 h v (pre ++ rest) off
        ≡ done ((pre ++ (v % 256) ∷ (v / 256) ∷ []) ++ drop 2 rest)
  unfolding att_put_u16
  put_u16_next v off pre rest hv e hr =
      rw (laws.store16_order v hv, write_at_next pre rest ((v % 256) ∷ (v / 256) ∷ []) off e hr)

  -- A request without a value is its header.
  pub encode-header :
      (opcode handle buflen : ℕ) (buffer : List ℕ)
      → handle < 65536
      → 3 ≤ buflen
      → buflen ≡ length buffer
      → sent (encode h opcode handle (some buffer) buflen none 0)
        ≡ done (handle_header opcode handle)
  unfolding encode write_value truncate_to
  encode-header opcode handle buflen [] hh hb e = absurd (omega arith)
  encode-header opcode handle buflen (a ∷ []) hh hb e = absurd (omega arith)
  encode-header opcode handle buflen (a ∷ b ∷ []) hh hb e = absurd (omega arith)
  encode-header opcode handle buflen (a ∷ b ∷ c ∷ rest) hh hb e = rw (
    ltb-false buflen 3 hb,
    write_at_next [] (a ∷ b ∷ c ∷ rest) (opcode ∷ []) 0 refl (omega arith),
    put_u16_next handle 1 (opcode ∷ []) (b ∷ c ∷ rest) hh refl (omega arith),
  )

  encode-some :
      (opcode handle a b c buflen : ℕ) (rest value : List ℕ)
      → handle < 65536
      → buflen ≡ 3 + length rest
      → sent (encode h opcode handle (some (a ∷ b ∷ c ∷ rest)) buflen (some value) (length value))
        ≡ done (handle_header opcode handle ++ take (length rest) value)
  unfolding encode
  encode-some opcode handle a b c buflen rest value hh e =
      rw
        (
          e,
          ltb-false (3 + length rest) 3 (omega arith),
          write_at_next [] (a ∷ b ∷ c ∷ rest) (opcode ∷ []) 0 refl (omega arith),
          put_u16_next handle 1 (opcode ∷ []) (b ∷ c ∷ rest) hh refl (omega arith),
          write_value_next (handle_header opcode handle) rest value
              (truncate_to (3 + length rest) 3 (length value)) refl (fits_value (length rest) value)
              (fits_rest (length rest) (length value)),
        )
        (ap done (
          take_prefix _ (handle_header opcode handle ++ take _ value) _ (
            omega (
              arith,
              length-take (truncate_to (3 + length rest) 3 (length value)) value,
              fits_value (length rest) value,
            ))
          ∙ ap (◌++◌ (handle_header opcode handle)) (take-truncate (length rest) value)))

  -- On a host that obeys the laws, for a handle of 16 bits and a buffer of `buflen` bytes, three at
  -- least: `encode` writes the opcode, the handle in little-endian order, and as much of the value
  -- as the buffer has room for.
  pub encode-contents :
      (opcode handle buflen : ℕ) (buffer value : List ℕ)
      → handle < 65536
      → 3 ≤ buflen
      → buflen ≡ length buffer
      → sent (encode h opcode handle (some buffer) buflen (some value) (length value))
        ≡ done (handle_header opcode handle ++ take (buflen - 3) value)
  encode-contents opcode handle buflen [] value hh hb e = absurd (omega arith)
  encode-contents opcode handle buflen (a ∷ []) value hh hb e = absurd (omega arith)
  encode-contents opcode handle buflen (a ∷ b ∷ []) value hh hb e = absurd (omega arith)
  encode-contents opcode handle buflen (a ∷ b ∷ c ∷ rest) value hh hb e =
      let room : buflen - 3 ≡ length rest = omega arith in
      rw room (encode-some opcode handle a b c buflen rest value hh (omega arith))
