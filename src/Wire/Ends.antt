-- ===== src/Wire/Ends.antt =====
-- The encoders have no loop: they end in a buffer or in a fault.
use btle_js.Prelude.{
  ℕ, ◌≢◌, List, [], ◌∷◌, Option, none, some, stuck, >>=-ne-stuck, ltb, Bool-cases, inl, inr, arith,
}
use btle_js.Host.{Host, Uuid, unspec, uuid16, uuid32, uuid128}
use btle_js.Wire.Memory.{load_bytes, load_bytes-ne-stuck, write_at}
use btle_js.Wire.{
  att_put_u16, att_put_u32, att_put_u128, copy_value, write_value, put_uuid, put_value,
  finish_range, encode, encode_range, truncate_to,
}

write_at-ne-stuck : (buffer : List ℕ) (off : ℕ) (bytes : List ℕ) → write_at buffer off bytes ≢ stuck
unfolding write_at
write_at-ne-stuck buffer off bytes e = ground arith

copy_value-ne-stuck :
    (buffer : List ℕ) (off : ℕ) (value : Option (List ℕ)) (n : ℕ)
    → copy_value buffer off value n ≢ stuck
unfolding copy_value
copy_value-ne-stuck buffer off value n =
    >>=-ne-stuck (load_bytes value n) _ (load_bytes-ne-stuck value n)
      λ r _. write_at-ne-stuck buffer off r.0

module _ (h : Host) where
  put_u16-ne-stuck : (v : ℕ) (buffer : List ℕ) (off : ℕ) → att_put_u16 h v buffer off ≢ stuck
  unfolding att_put_u16
  put_u16-ne-stuck v buffer off = write_at-ne-stuck buffer off (h.store16 (h.htobs v))

  put_uuid-ne-stuck : (u : Option Uuid) (buffer : List ℕ) → put_uuid h u buffer ≢ stuck
  unfolding put_uuid att_put_u32 att_put_u128
  put_uuid-ne-stuck none buffer = λ e. cc
  put_uuid-ne-stuck (some unspec) buffer = λ e. cc
  put_uuid-ne-stuck (some (uuid16 v)) buffer =
      >>=-ne-stuck _ _ (put_u16-ne-stuck v buffer 5) λ b _ e. cc
  put_uuid-ne-stuck (some (uuid32 v)) buffer =
      >>=-ne-stuck _ _ (write_at-ne-stuck buffer 5 (h.store32 (h.htobl v))) λ b _ e. cc
  put_uuid-ne-stuck (some (uuid128 v)) buffer =
      >>=-ne-stuck _ _ (write_at-ne-stuck buffer 5 (h.htob128 v)) λ b _ e. cc

  finish-ne-stuck :
      (buffer : List ℕ) (width : Option ℕ) (value : Option (List ℕ)) (n : ℕ)
      → finish_range buffer width value n ≢ stuck
  unfolding finish_range put_value
  finish-ne-stuck buffer none value n = λ e. cc
  finish-ne-stuck buffer (some w) none n = λ e. cc
  finish-ne-stuck buffer (some w) (some value) n =
      >>=-ne-stuck _ _ (copy_value-ne-stuck buffer 7 (some value) n) λ b _ e. cc

  write_value-ne-stuck :
      (buffer : List ℕ) (value : Option (List ℕ)) (n : ℕ) → write_value buffer value n ≢ stuck
  unfolding write_value
  write_value-ne-stuck buffer value n = ground (arith, copy_value-ne-stuck buffer 3 value n)

  pub encode-ne-stuck :
      (opcode handle : ℕ) (buffer : Option (List ℕ)) (buflen : ℕ) (value : Option (List ℕ)) (n : ℕ)
      → encode h opcode handle buffer buflen value n ≢ stuck
  unfolding encode
  encode-ne-stuck opcode handle none buflen value n = λ e. cc
  encode-ne-stuck opcode handle (some buffer) buflen value n = elim (Bool-cases (ltb buflen 3)) [
    | inl small ↦ rw small (λ e. cc)
    | inr fits ↦ rw fits (
        >>=-ne-stuck _ _ (write_at-ne-stuck buffer 0 (opcode ∷ [])) λ b _.
          >>=-ne-stuck _ _ (put_u16-ne-stuck handle b 1) λ c _.
            >>=-ne-stuck _ _ (write_value-ne-stuck c value (truncate_to buflen 3 n)) λ d _ e. cc)
  ]

  pub encode_range-ne-stuck :
      (opcode s t : ℕ) (u : Option Uuid) (buffer : Option (List ℕ)) (buflen : ℕ)
      (value : Option (List ℕ)) (n : ℕ)
      → encode_range h opcode s t u buffer buflen value n ≢ stuck
  unfolding encode_range
  encode_range-ne-stuck opcode s t u none buflen value n = λ e. cc
  encode_range-ne-stuck opcode s t u (some buffer) buflen value n =
      elim (Bool-cases (ltb buflen 5)) [
        | inl small ↦ rw small (λ e. cc)
        | inr fits ↦ rw fits (
            >>=-ne-stuck _ _ (write_at-ne-stuck buffer 0 (opcode ∷ [])) λ b _.
              >>=-ne-stuck _ _ (put_u16-ne-stuck s b 1) λ c _.
                >>=-ne-stuck _ _ (put_u16-ne-stuck t c 3) λ d _.
                  >>=-ne-stuck _ _ (put_uuid-ne-stuck u d) λ r _. finish-ne-stuck r.0 r.1 value n)
      ]
