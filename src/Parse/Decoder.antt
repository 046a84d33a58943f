-- ===== src/Parse/Decoder.antt =====
-- The parser of Find Information Responses in the 16-bit format, against a decoder of chunks.
use btle_js.Prelude.{
  ℕ, zero, suc, ◌+◌, ◌-◌, ◌*◌, ◌≤◌, ◌<◌, ◌≡◌, refl, Outcome, done, fault, ◌>>=◌, List, [], ◌∷◌,
  ◌++◌, append-nil, append_assoc, length, stuck, sym, ap, ◌∙◌, some, pos, All, lt→ltb, ltb-false,
  arith,
}
use btle_js.Host.{Host, HostLaws, uuid16}
use btle_js.Wire.{att_get_u16, att_get_uuid16}
use btle_js.Wire.Memory.{load_bytes-append, load_bytes_short}
use btle_js.Parse.{AttributeInfo, attribute_entry, entries, parse_attribute_list, load_byte}
use btle_js.Parse.Loop.{entries_over, entries_more}

-- A handle and a UUID, both in little-endian order.
abbrev pub chunk : ℕ → ℕ → ℕ → ℕ → AttributeInfo
chunk a b c d = record { handle = a + 256 * b; type = uuid16 (c + 256 * d) }

-- Chunks of four bytes as long as received bytes are left; a chunk that is cut off is completed with
-- what the buffer holds behind it.
abbrev pub decode : List ℕ → ℕ → Outcome (List AttributeInfo)
decode buf zero = done []
decode (a ∷ b ∷ c ∷ d ∷ rest) (suc n) =
    decode rest (n - 3) >>= λ items. done (chunk a b c d ∷ items)
decode _ (suc n) = fault

abbrev pub AreBytes : List ℕ → Type 0
AreBytes bytes = All (λ b. b < 256) bytes

module _ (h : Host) (laws : HostLaws h) where
  u16_lem :
      (a b : ℕ) (rest : List ℕ)
      → a < 256
      → b < 256
      → att_get_u16 h (a ∷ b ∷ rest) ≡ done (a + 256 * b, rest)
  unfolding att_get_u16
  u16_lem a b rest ha hb =
      rw (load_bytes-append (a ∷ b ∷ []) rest 2 refl, laws.load16_order a b ha hb) refl

  uuid16_lem :
      (a b : ℕ) (rest : List ℕ)
      → a < 256
      → b < 256
      → att_get_uuid16 h (a ∷ b ∷ rest) ≡ done (uuid16 (a + 256 * b), rest)
  unfolding att_get_uuid16
  uuid16_lem a b rest ha hb = rw (u16_lem a b rest ha hb, laws.uuid16_create_lem (a + 256 * b)) refl

  entry_lem :
      (a b c d : ℕ) (rest : List ℕ)
      → AreBytes (a ∷ b ∷ c ∷ d ∷ [])
      → attribute_entry h 1 (a ∷ b ∷ c ∷ d ∷ rest) ≡ done (chunk a b c d, 4, rest)
  unfolding attribute_entry
  entry_lem a b c d rest (ha, (hb, (hc, (hd, _)))) =
      rw (u16_lem a b (c ∷ d ∷ rest) ha hb, uuid16_lem c d rest hc hd) refl

  u16_short : (buf : List ℕ) → length buf < 2 → att_get_u16 h buf ≡ fault
  unfolding att_get_u16
  u16_short buf e = rw (load_bytes_short buf 2 e) refl

  entry_short : (buf : List ℕ) → AreBytes buf → length buf < 4 → attribute_entry h 1 buf ≡ fault
  unfolding attribute_entry att_get_uuid16
  entry_short [] g e = rw (u16_short [] (omega arith)) refl
  entry_short (a ∷ []) g e = rw (u16_short (a ∷ []) (omega arith)) refl
  entry_short (a ∷ b ∷ []) (ha, (hb, _)) e =
      rw (u16_lem a b [] ha hb, u16_short [] (omega arith)) refl
  entry_short (a ∷ b ∷ c ∷ []) (ha, (hb, _)) e =
      rw (u16_lem a b (c ∷ []) ha hb, u16_short (c ∷ []) (omega arith)) refl
  entry_short (a ∷ b ∷ c ∷ d ∷ rest) g e = absurd (omega arith)

  entries_fault :
      (fuel off total : ℕ) (buf : List ℕ) (list : List AttributeInfo)
      → off < total
      → attribute_entry h 1 buf ≡ fault
      → entries (attribute_entry h 1) (suc fuel) off (some buf) (pos total) list ≡ fault
  unfolding entries
  entries_fault fuel off total buf list more e = rw (lt→ltb off total more, entries, e) refl

  -- What was decoded, behind what is in the list.
  abbrev onto : List AttributeInfo → Outcome (List AttributeInfo) → Outcome (List AttributeInfo)
  onto list run = run >>= λ items. done (list ++ items)

  onto-cons :
      (list : List AttributeInfo) (x : AttributeInfo) (run : Outcome (List AttributeInfo))
      → onto (list ++ (x ∷ [])) run ≡ onto list (run >>= λ items. done (x ∷ items))
  onto-cons list x (done items) = ap done (append_assoc list (x ∷ []) items)
  onto-cons list x fault = refl
  onto-cons list x stuck = refl

  entries-decode :
      (buf : List ℕ) (fuel off left total : ℕ) (list : List AttributeInfo)
      → AreBytes buf
      → total - off ≡ left
      → left ≤ fuel
      → entries (attribute_entry h 1) fuel off (some buf) (pos total) list
        ≡ onto list (decode buf left)
  entries-decode buf fuel off zero total list g e enough =
      entries_over (attribute_entry h 1) fuel off (some buf) (pos total) list
        (ltb-false off total (omega arith))
      ∙ sym (ap done (append-nil list))
  entries-decode buf zero off (suc n) total list g e enough = absurd (omega arith)
  entries-decode (a ∷ b ∷ c ∷ d ∷ rest) (suc fuel) off (suc n) total list (ha, (hb, (hc, (hd, g))))
        e enough =
      entries_more (attribute_entry h 1) fuel off (a ∷ b ∷ c ∷ d ∷ rest) (pos total) list
        (chunk a b c d) 4 rest (lt→ltb off total (omega arith))
        (entry_lem a b c d rest (ha, (hb, (hc, (hd, tt)))))
      ∙ entries-decode rest fuel (off + 4) (n - 3) total (list ++ (chunk a b c d ∷ [])) g
          (omega arith) (omega arith)
      ∙ onto-cons list (chunk a b c d) (decode rest (n - 3))
  entries-decode [] (suc fuel) off (suc n) total list g e enough =
      entries_fault fuel off total [] list (omega arith) (entry_short [] g (omega arith))
  entries-decode (a ∷ []) (suc fuel) off (suc n) total list g e enough =
      entries_fault fuel off total (a ∷ []) list (omega arith)
        (entry_short (a ∷ []) g (omega arith))
  entries-decode (a ∷ b ∷ []) (suc fuel) off (suc n) total list g e enough =
      entries_fault fuel off total (a ∷ b ∷ []) list (omega arith)
        (entry_short (a ∷ b ∷ []) g (omega arith))
  entries-decode (a ∷ b ∷ c ∷ []) (suc fuel) off (suc n) total list g e enough =
      entries_fault fuel off total (a ∷ b ∷ c ∷ []) list (omega arith)
        (entry_short (a ∷ b ∷ c ∷ []) g (omega arith))

  -- On a host that obeys the laws, for any buffer of bytes behind the format byte 1 and any number
  -- of received bytes: the parser of Find Information Responses faults where the decoder of chunks
  -- of four bytes does, and else appends what the decoder yields.
  pub parse_attribute_list-eq-decode :
      (list : List AttributeInfo) (buf : List ℕ) (n : ℕ)
      → AreBytes buf
      → parse_attribute_list h list (some (1 ∷ buf)) (pos (1 + n))
        ≡ (decode buf n >>= λ items. done (list ++ items))
  unfolding parse_attribute_list load_byte
  parse_attribute_list-eq-decode list buf n g =
      entries-decode buf (1 + n) 1 n (1 + n) list g (omega arith) (omega arith)
