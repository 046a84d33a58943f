-- ===== src/Parse/Total.antt =====
-- The parsers end on every response, well formed or not: their loops never outrun the fuel.
use btle_js.Prelude.{
  ℕ, ◌≡◌, ◌≢◌, List, [], ◌∷◌, Option, none, some, done, stuck, >>=-ne-stuck, >>=-eq-done, ℤ, ◌==◌,
  Bool-cases, inl, inr, arith,
}
use btle_js.Host.{Host}
use btle_js.Wire.{att_get_u16, att_get_uuid16, att_get_uuid128}
use btle_js.Wire.Load.{
  get_u16-ne-stuck, get_uuid16-ne-stuck, get_uuid128-ne-stuck, get_u16_moves, get_uuid16_moves,
  get_uuid128_moves,
}
use btle_js.Wire.Memory.{load_bytes, load_bytes-ne-stuck, load_bytes_moves}
use btle_js.Parse.{
  AttributeInfo, HandlesInfo, AttributeData, GroupAttributeData, attribute_entry, handles_entry,
  data_entry, group_entry, parse_attribute_list, parse_handles_information_list,
  parse_attribute_data_list, parse_group_attribute_data_list, load_byte, size_sub, rounds,
}
use btle_js.Parse.Loop.{Advances, IsSmall, entries-ne-stuck}

module _ (h : Host) where
  handles_entry-Advances : Advances (handles_entry h)
  unfolding handles_entry
  handles_entry-Advances = record {
    moves = λ p a n next s e.
        let (x, u, e) = >>=-eq-done (att_get_u16 h p) _ e in
        let (y, v, e) = >>=-eq-done (att_get_u16 h x.1) _ e in
        ground (arith, get_u16_moves h p x.0 x.1 u, get_u16_moves h x.1 y.0 y.1 v);
    ends = λ p.
        >>=-ne-stuck (att_get_u16 h p) _ (get_u16-ne-stuck h p)
          λ x _. >>=-ne-stuck (att_get_u16 h x.1) _ (get_u16-ne-stuck h x.1) λ y _ e. cc;
  }

  data_entry-Advances : (length : ℕ) → Advances (data_entry h length)
  unfolding data_entry
  data_entry-Advances n = record {
    moves = λ p a k next s e.
        let (x, u, e) = >>=-eq-done (att_get_u16 h p) _ e in
        let (y, v, e) = >>=-eq-done (load_bytes (some x.1) (size_sub n 2)) _ e in
        ground (arith, get_u16_moves h p x.0 x.1 u, load_bytes_moves x.1 y.0 y.1 (size_sub n 2) v);
    ends = λ p. >>=-ne-stuck (att_get_u16 h p) _ (get_u16-ne-stuck h p) λ x _.
        >>=-ne-stuck (load_bytes (some x.1) (size_sub n 2)) _ (load_bytes-ne-stuck _ _) λ y _ e. cc;
  }

  group_entry-Advances : (length : ℕ) → Advances (group_entry h length)
  unfolding group_entry
  group_entry-Advances n = record {
    moves = λ p a k next s e.
        let (x, u, e) = >>=-eq-done (att_get_u16 h p) _ e in
        let (w, t, e) = >>=-eq-done (att_get_u16 h x.1) _ e in
        let (y, v, e) = >>=-eq-done (load_bytes (some w.1) (size_sub n 4)) _ e in
        ground (
          arith,
          get_u16_moves h p x.0 x.1 u,
          get_u16_moves h x.1 w.0 w.1 t,
          load_bytes_moves w.1 y.0 y.1 (size_sub n 4) v,
        );
    ends = λ p. >>=-ne-stuck (att_get_u16 h p) _ (get_u16-ne-stuck h p) λ x _.
        >>=-ne-stuck (att_get_u16 h x.1) _ (get_u16-ne-stuck h x.1) λ w _.
          >>=-ne-stuck (load_bytes (some w.1) (size_sub n 4)) _ (load_bytes-ne-stuck _ _)
            λ y _ e. cc;
  }

  attribute_entry-Advances : (format : ℕ) → Advances (attribute_entry h format)
  unfolding attribute_entry
  attribute_entry-Advances f = record {
    moves = λ p a k next s e.
        let (x, u, e) = >>=-eq-done (att_get_u16 h p) _ e in
        elim (Bool-cases (f == 1)) [
          | inl short ↦
              let (y, v, e) = >>=-eq-done (att_get_uuid16 h x.1) _ (rw short at e) in
              ground (arith, get_u16_moves h p x.0 x.1 u, get_uuid16_moves h x.1 y.0 y.1 v)
          | inr long ↦
              let (y, v, e) = >>=-eq-done (att_get_uuid128 h x.1) _ (rw long at e) in
              ground (arith, get_u16_moves h p x.0 x.1 u, get_uuid128_moves h x.1 y.0 y.1 v)
        ];
    ends = λ p. >>=-ne-stuck (att_get_u16 h p) _ (get_u16-ne-stuck h p) λ x _.
        elim (Bool-cases (f == 1)) [
          | inl short ↦
              rw short
                (>>=-ne-stuck (att_get_uuid16 h x.1) _ (get_uuid16-ne-stuck h x.1) λ y _ e. cc)
          | inr long ↦
              rw long
                (>>=-ne-stuck (att_get_uuid128 h x.1) _ (get_uuid128-ne-stuck h x.1) λ y _ e. cc)
        ];
  }

load_byte_moves :
    (p : Option (List ℕ)) (b : ℕ) (next : List ℕ)
    → IsSmall p
    → load_byte p ≡ done (b, next)
    → IsSmall (some next)
unfolding load_byte
load_byte_moves none b next s e = cc
load_byte_moves (some []) b next s e = cc
load_byte_moves (some (x ∷ r)) b next s e = ground arith

pub load_byte-ne-stuck : (p : Option (List ℕ)) → load_byte p ≢ stuck
unfolding load_byte
load_byte-ne-stuck none e = cc
load_byte-ne-stuck (some []) e = cc
load_byte-ne-stuck (some (x ∷ r)) e = cc

module _ (h : Host) (buf : Option (List ℕ)) (len : ℤ) (small : IsSmall buf) where
  pub parse_attribute_list-ne-stuck :
      (list : List AttributeInfo) → parse_attribute_list h list buf len ≢ stuck
  unfolding parse_attribute_list
  parse_attribute_list-ne-stuck list =
      >>=-ne-stuck (load_byte buf) _ (load_byte-ne-stuck buf) λ r e.
        entries-ne-stuck (attribute_entry h r.0) (attribute_entry-Advances h r.0) (rounds len) 1
          (some r.1) len list (load_byte_moves buf r.0 r.1 small e) (omega arith)

  pub parse_handles-ne-stuck :
      (list : List HandlesInfo) → parse_handles_information_list h list buf len ≢ stuck
  unfolding parse_handles_information_list
  parse_handles-ne-stuck list =
      entries-ne-stuck (handles_entry h) (handles_entry-Advances h) (rounds len) 0 buf len list
        small (omega arith)

  pub parse_attribute_data-ne-stuck :
      (list : List AttributeData) → parse_attribute_data_list h list buf len ≢ stuck
  unfolding parse_attribute_data_list
  parse_attribute_data-ne-stuck list =
      >>=-ne-stuck (load_byte buf) _ (load_byte-ne-stuck buf) λ r e.
        entries-ne-stuck (data_entry h r.0) (data_entry-Advances h r.0) (rounds len) 1 (some r.1)
          len list (load_byte_moves buf r.0 r.1 small e) (omega arith)

  pub parse_group-ne-stuck :
      (list : List GroupAttributeData) → parse_group_attribute_data_list h list buf len ≢ stuck
  unfolding parse_group_attribute_data_list
  parse_group-ne-stuck list = >>=-ne-stuck (load_byte buf) _ (load_byte-ne-stuck buf) λ r e.
      entries-ne-stuck (group_entry h r.0) (group_entry-Advances h r.0) (rounds len) 1 (some r.1)
        len list (load_byte_moves buf r.0 r.1 small e) (omega arith)

  -- On a buffer that is null or less than 2^63 bytes long, and for any length, none of the four
  -- parsers runs out of rounds, whatever the bytes are.
  pub parsers_end :
      (infos : List AttributeInfo) (hs : List HandlesInfo) (ds : List AttributeData)
      (gs : List GroupAttributeData)
      → (parse_attribute_list h infos buf len ≢ stuck)
        × (parse_handles_information_list h hs buf len ≢ stuck)
        × (parse_attribute_data_list h ds buf len ≢ stuck)
        × (parse_group_attribute_data_list h gs buf len ≢ stuck)
  parsers_end infos hs ds gs = (
    parse_attribute_list-ne-stuck infos,
    parse_handles-ne-stuck hs,
    parse_attribute_data-ne-stuck ds,
    parse_group-ne-stuck gs,
  )
