-- ===== src/Tlv/Tests.antt =====
-- Concrete records.
use libotrv.Prelude.{◌≤◌, ◌≡◌, some, List, [], ◌∷◌, arith, length, All, Bytes}
use libotrv.Tlv.{Tlv, parse_tlvs}
use libotrv.Tlv.Parse.{IsTlv, total_size, parse_tlvs_total}

abbrev cut_record : Bytes
cut_record = 0 ∷ 1 ∷ 0 ∷ 9 ∷ []

total_example :
    (ts : List Tlv) × (parse_tlvs cut_record ≡ some ts)
    × All IsTlv ts
    × (total_size ts ≤ length cut_record)
total_example =
    parse_tlvs_total cut_record (omega arith, (omega arith, (omega arith, (omega arith, tt))))
