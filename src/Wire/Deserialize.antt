-- ===== src/Wire/Deserialize.antt =====
-- src/deserialize.c: the readers of integers and byte strings. A buffer is the list of its
-- `buff_len` bytes. `none` is OTRNG_ERROR, and a result is the value with the number of bytes read.
use libotrv.Prelude.{
  ℕ, ◌+◌, ◌-◌, ◌*◌, ◌^◌, Bool, true, false, Option, none, some, [], ◌∷◌, Bytes, length, take, drop,
  ltb, ◌==◌, if◌then◌else◌,
}

-- `|` of shifted bytes is a sum, for their bits are apart.
unfoldable pub deserialize_uint64 : Bytes → Option (ℕ × ℕ)
deserialize_uint64 (b0 ∷ b1 ∷ b2 ∷ b3 ∷ b4 ∷ b5 ∷ b6 ∷ b7 ∷ _) = some (
  b7
      + b6 * 2 ^ 8
      + b5 * 2 ^ 16
      + b4 * 2 ^ 24
      + b3 * 2 ^ 32
      + b2 * 2 ^ 40
      + b1 * 2 ^ 48
      + b0 * 2 ^ 56,
  8,
)
deserialize_uint64 _ = none

unfoldable pub deserialize_uint32 : Bytes → Option (ℕ × ℕ)
deserialize_uint32 (b0 ∷ b1 ∷ b2 ∷ b3 ∷ _) = some (b3 + b2 * 2 ^ 8 + b1 * 2 ^ 16 + b0 * 2 ^ 24, 4)
deserialize_uint32 _ = none

unfoldable pub deserialize_uint16 : Bytes → Option (ℕ × ℕ)
deserialize_uint16 (b0 ∷ b1 ∷ _) = some (b1 + b0 * 2 ^ 8, 2)
deserialize_uint16 _ = none

unfoldable pub deserialize_uint8 : Bytes → Option (ℕ × ℕ)
deserialize_uint8 (b0 ∷ _) = some (b0, 1)
deserialize_uint8 [] = none

-- What `deserialize_data` leaves in `*dst`, `*dst_len` and `*read`. `bytes` is `none` where `*dst`
-- and `*dst_len` are not written, which is success at a length of 0.
pub record DataRead : Type 0 where
  pub success : Bool
  pub bytes : Option Bytes
  pub read : ℕ

-- The part of `deserialize_data` behind the four bytes of the length `s`.
unfoldable pub deserialize_payload : Bytes → ℕ → ℕ → DataRead
deserialize_payload buffer s r =
    if s == 0
    then record { success = true; bytes = none; read = r }
    else if ltb (length buffer - r) s
    then record { success = false; bytes = none; read = r }
    else record { success = true; bytes = some (take s (drop r buffer)); read = r + s }

unfoldable pub deserialize_data : Bytes → DataRead
deserialize_data buffer = elim (deserialize_uint32 buffer) [
  | none ↦ record { success = false; bytes = none; read = 0 }
  | some (s, r) ↦ deserialize_payload buffer s r
]

unfoldable pub deserialize_bytes_array : ℕ → Bytes → Option Bytes
deserialize_bytes_array dst_len buffer =
    if ltb (length buffer) dst_len then none else some (take dst_len buffer)
