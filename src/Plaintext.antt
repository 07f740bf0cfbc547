-- ===== src/Plaintext.antt =====
-- The plaintext of a data message: a text, a NUL, records and padding. src/padding.c, `serialize_tlvs`
-- and `append_tlvs` of src/protocol.c, and the part of src/otrng.c that takes a plaintext apart.
pub mod Layout
pub mod RoundTrip
mod Tests
use libotrv.Prelude.{
  ℕ, zero, suc, ◌+◌, ◌-◌, ◌%◌, not, Option, none, some, List, [], ◌∷◌, ◌++◌, ◌==◌, if◌then◌else◌,
  length, Bytes, ◌>>=◌, ◌>>◌, require,
}
use libotrv.Tlv.{Tlv, tlv_padding_new, tlv_serialize, parse_tlvs}

-- `max` is the granularity that the client has set; sizes are far below SIZE_MAX.
unfoldable pub calculate_padding_len : ℕ → ℕ → ℕ
calculate_padding_len msg_len max = if max == 0 then 0 else max - (msg_len + 4 + 1) % max

-- Success with a null `*dst` is `some none`.
unfoldable pub generate_padding : ℕ → ℕ → Option (Option Bytes)
generate_padding msg_len max =
    let padding_len = calculate_padding_len msg_len max in
    if padding_len == 0 then some none else (do
      tlv ← tlv_padding_new padding_len
      let dst = tlv_serialize tlv
      require (not (length dst == 0))
      some (some dst))

tlvs_len : List Tlv → ℕ
tlvs_len [] = 0
tlvs_len (t ∷ ts) = t.len + 4 + tlvs_len ts

write_tlvs : List Tlv → Bytes
write_tlvs [] = []
write_tlvs (t ∷ ts) = tlv_serialize t ++ write_tlvs ts

-- The bytes written, and `*dst_len`, the size of the buffer that was allocated for them.
unfoldable pub serialize_tlvs : List Tlv → Option Bytes × ℕ
unfolding tlvs_len write_tlvs
serialize_tlvs [] = (none, 0)
serialize_tlvs (t ∷ ts) = (some (write_tlvs (t ∷ ts)), tlvs_len (t ∷ ts))

abbrev pub or_nothing : Option Bytes → Bytes
or_nothing none = []
or_nothing (some bytes) = bytes

-- The plaintext, and `*dst_len`, the size of the buffer that was allocated for it.
unfoldable pub append_tlvs : Bytes → List Tlv → ℕ → Option (Bytes × ℕ)
append_tlvs msg tlvs max =
    let (ser, len) = serialize_tlvs tlvs in
    let msg_len = length msg + 1 + len in
    generate_padding msg_len max >>= λ padding.
    let padding_len = length (or_nothing padding) in
    some (msg ++ (0 ∷ (or_nothing ser ++ or_nothing padding)), msg_len + padding_len)

-- `memchr(src, 0, len)`: what stands behind the first NUL.
unfoldable pub behind_nul : Bytes → Option Bytes
behind_nul [] = none
behind_nul (zero ∷ src) = some src
behind_nul (suc b ∷ src) = behind_nul src

unfoldable pub deserialize_received_tlvs : Bytes → Option (List Tlv)
deserialize_received_tlvs src = elim (behind_nul src) [
  | none ↦ some []
  | some tlvs ↦ parse_tlvs tlvs
]

-- The bytes in front of the first NUL, which `otrng_strnlen` counts and `otrng_xstrndup` copies.
unfoldable pub before_nul : Bytes → Bytes
before_nul [] = []
before_nul (zero ∷ src) = []
before_nul (suc b ∷ src) = suc b ∷ before_nul src

-- What `decrypt_data_message` puts into `to_display`: nothing for an empty text.
unfoldable pub to_display : Bytes → Option Bytes
to_display plain = let text = before_nul plain in if length text == 0 then none else some text
