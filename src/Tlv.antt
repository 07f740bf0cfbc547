-- ===== src/Tlv.antt =====
-- src/tlv.c: the type-length-value records inside a data message. A `tlv_s *` list is a list, NULL is
-- the empty list, and the copy of the value that each record owns is its `data`.
mod Tests
pub mod Parse
use libotrv.Prelude.{
  ℕ, zero, suc, ◌+◌, ◌%◌, ◌^◌, Option, none, some, List, [], ◌∷◌, ◌++◌, ltb, leb, ◌==◌,
  if◌then◌else◌, length, take, drop, replicate, Bytes, ◌>>=◌, ◌>>◌, require,
}
use libotrv.Wire.Serialize.{serialize_uint16, serialize_bytes_array}
use libotrv.Wire.Deserialize.{deserialize_uint16}

-- `otrng_tlv_type`; `tlv_none` is OTRNG_TLV_NONE.
pub data TlvType : Type 0 where
  tlv_none padding disconnected smp_msg_1 smp_msg_2 smp_msg_3 smp_msg_4 smp_abort sym_key : TlvType

-- The value of the enumerator as a `uint16_t`: OTRNG_TLV_NONE is -1.
unfoldable pub type_code : TlvType → ℕ
type_code tlv_none = 65535
type_code padding = 0
type_code disconnected = 1
type_code smp_msg_1 = 2
type_code smp_msg_2 = 3
type_code smp_msg_3 = 4
type_code smp_msg_4 = 5
type_code smp_abort = 6
type_code sym_key = 7

pub record Tlv : Type 0 where
  pub type : TlvType
  pub len : ℕ
  pub bytes : Bytes

tlv_types : List TlvType
tlv_types =
    padding ∷ disconnected ∷ smp_msg_1 ∷ smp_msg_2 ∷ smp_msg_3 ∷ smp_msg_4 ∷ smp_abort ∷ sym_key
    ∷ []

entry : List TlvType → ℕ → TlvType
entry [] i = tlv_none
entry (t ∷ ts) zero = t
entry (t ∷ ts) (suc i) = entry ts i

-- `set_tlv_type`: a code at TLV_TYPES_LENGTH or above keeps OTRNG_TLV_NONE.
unfoldable pub set_tlv_type : ℕ → TlvType
unfolding tlv_types entry
set_tlv_type code = if ltb code 8 then entry tlv_types code else tlv_none

-- `none` is the null pointer: a value is announced and there is no data.
unfoldable pub tlv_new : TlvType → ℕ → Option Bytes → Option Tlv
tlv_new type len none =
    if len % 2 ^ 16 == 0
    then some (record { type = type; len = len % 2 ^ 16; bytes = [] })
    else none
tlv_new type len (some bytes) =
    some (record { type = type; len = len % 2 ^ 16; bytes = take (len % 2 ^ 16) bytes })

unfoldable pub tlv_disconnected_new : Option Tlv
tlv_disconnected_new = tlv_new disconnected 0 none

unfoldable pub tlv_padding_new : ℕ → Option Tlv
tlv_padding_new len = tlv_new padding len (some (replicate len 0))

unfoldable pub tlv_serialize : Tlv → Bytes
tlv_serialize tlv =
    serialize_uint16 (type_code tlv.type)
    ++ (serialize_uint16 tlv.len ++ serialize_bytes_array (some (take tlv.len tlv.bytes)))

-- `parse_tlv`: the record at the front of `src`, and how many bytes it takes.
unfoldable pub parse_tlv : Bytes → Option (Tlv × ℕ)
parse_tlv src = do
  (code, w) ← deserialize_uint16 src
  let body = drop w src
  (len, v) ← deserialize_uint16 body
  let value = drop v body
  require (leb len (length value))
  some (record { type = set_tlv_type code; len = len; bytes = take len value }, w + v + len)

unfoldable pub append_tlv : List Tlv → Tlv → List Tlv
append_tlv [] tlv = tlv ∷ []
append_tlv (t ∷ ts) tlv = t ∷ append_tlv ts tlv

-- The loop of `otrng_parse_tlvs`; `none` is no result of the code: the fuel ran out.
unfoldable pub parse_tlvs_loop : ℕ → Bytes → List Tlv → Option (List Tlv)
parse_tlvs_loop fuel [] ret = some ret
parse_tlvs_loop zero (b ∷ src) ret = none
parse_tlvs_loop (suc fuel) (b ∷ src) ret = elim (parse_tlv (b ∷ src)) [
  | none ↦ some ret
  | some (tlv, read) ↦ parse_tlvs_loop fuel (drop read (b ∷ src)) (append_tlv ret tlv)
]

-- Every round takes four bytes at least, so the length of the input is fuel enough.
unfoldable pub parse_tlvs : Bytes → Option (List Tlv)
parse_tlvs src = parse_tlvs_loop (length src) src []
