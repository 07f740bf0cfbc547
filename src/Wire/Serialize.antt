-- ===== src/Wire/Serialize.antt =====
-- src/serialize.c. A function that writes at `dst` and returns the number of bytes written is the
-- list of these bytes; the caller's `cursor += f(cursor, x)` is concatenation.
use libotrv.Prelude.{
  ℕ, zero, suc, ◌*◌, ◌/◌, ◌%◌, ◌^◌, Option, none, some, [], ◌∷◌, ◌++◌, Bytes, length, ltb,
  if◌then◌else◌,
}

-- The loop of `serialize_uint`: `shift` counts down to 0, and `& 0xFF` keeps the low eight bits.
unfoldable pub serialize_uint : ℕ → ℕ → Bytes
serialize_uint zero n = []
serialize_uint (suc shift) n = n / 2 ^ (shift * 8) % 256 ∷ serialize_uint shift n

unfoldable pub serialize_uint64 : ℕ → Bytes
unfolding serialize_uint
serialize_uint64 n = serialize_uint 8 n

unfoldable pub serialize_uint32 : ℕ → Bytes
unfolding serialize_uint
serialize_uint32 n = serialize_uint 4 n

unfoldable pub serialize_uint16 : ℕ → Bytes
unfolding serialize_uint
serialize_uint16 n = serialize_uint 2 n

unfoldable pub serialize_uint8 : ℕ → Bytes
unfolding serialize_uint
serialize_uint8 n = serialize_uint 1 n

-- A null `data` writes nothing. The bytes given are the `len` bytes at `data`.
unfoldable pub serialize_bytes_array : Option Bytes → Bytes
serialize_bytes_array none = []
serialize_bytes_array (some bytes) = bytes

-- The length is `len`, also where `data` is null; it is cut to 32 bits by the parameter's type.
unfoldable pub serialize_data : Option Bytes → ℕ → Bytes
serialize_data bytes len = serialize_uint32 (len % 2 ^ 32) ++ serialize_bytes_array bytes

-- The two instance tags in increasing order, then the shared session state. The parameters are
-- `uint16_t`, so each tag is cut to 16 bits before the test.
unfoldable pub serialize_phi : Bytes → ℕ → ℕ → Bytes
serialize_phi state sender receiver =
    let s = sender % 2 ^ 16 in
    let r = receiver % 2 ^ 16 in
    let tags =
      if ltb s r
      then serialize_uint16 s ++ serialize_uint16 r
      else serialize_uint16 r ++ serialize_uint16 s in
    tags ++ serialize_data (some state) (length state)
