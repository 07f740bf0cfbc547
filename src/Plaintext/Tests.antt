-- ===== src/Plaintext/Tests.antt =====
-- The plaintext of a short text with one record.
use libotrv.Prelude.{
  ◌+◌, ◌%◌, ◌≡◌, refl, none, some, List, [], ◌∷◌, ◌++◌, arith, ◌==◌, if◌then◌else◌, length, All,
  Bytes,
}
use libotrv.Tlv.{sym_key, Tlv}
use libotrv.Tlv.Parse.{IsTlv, serialize_all}
use libotrv.Plaintext.{calculate_padding_len, append_tlvs, deserialize_received_tlvs, to_display}
use libotrv.Plaintext.Layout.{padding_tlvs, unpadded_len, append_tlvs_layout}
use libotrv.Plaintext.RoundTrip.{receive-append_tlvs, append_tlvs_size}

abbrev one_record : List Tlv
one_record = record { type = sym_key; len = 2; bytes = 5 ∷ 6 ∷ [] } ∷ []

one_record-IsTlv : All IsTlv one_record
one_record-IsTlv = (record { fits = omega arith; exact = refl }, tt)

abbrev text : Bytes
text = 72 ∷ 105 ∷ []

abbrev plain : Bytes
plain =
    text
    ++ (0
        ∷ serialize_all
            (one_record ++ padding_tlvs (calculate_padding_len (unpadded_len text one_record) 16)))

plain_made : append_tlvs text one_record 16 ≡ some (plain, length plain)
plain_made = append_tlvs_layout text one_record 16 one_record-IsTlv (omega arith)

receive_example :
    (to_display plain ≡ (if length text == 0 then none else some text))
    × (deserialize_received_tlvs plain
        ≡ some
            (one_record ++ padding_tlvs (calculate_padding_len (unpadded_len text one_record) 16)))
receive_example =
    receive-append_tlvs text one_record 16 plain (length plain) (omega arith, (omega arith, tt))
      one_record-IsTlv (omega arith) plain_made

size_example : (length plain ≡ length plain) × ((length plain + 1) % 16 ≡ 0)
size_example =
    append_tlvs_size text one_record 16 plain (length plain) one_record-IsTlv (omega arith)
      (omega arith) plain_made
