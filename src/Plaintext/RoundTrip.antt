-- ===== src/Plaintext/RoundTrip.antt =====
-- A plaintext of `append_tlvs`, taken apart as `decrypt_data_message` does.
use libotrv.Prelude.{
  ℕ, zero, suc, ◌+◌, ◌%◌, ◌^◌, ◌≤◌, ◌<◌, ◌≡◌, refl, sym, ap, none, some, List, [], ◌∷◌, ◌++◌,
  append-nil, arith, ◌==◌, if◌then◌else◌, length, replicate, All, length-append, Bytes,
}
use libotrv.Tlv.{Tlv, padding, tlv_serialize, parse_tlv}
use libotrv.Tlv.Parse.{IsTlv, serialize_all, parse_tlvs-serialize_all, length-tlv_serialize}
use libotrv.Wire.Deserialize.{deserialize_uint16}
use libotrv.Plaintext.{
  calculate_padding_len, append_tlvs, behind_nul, before_nul, deserialize_received_tlvs, to_display,
}
use libotrv.Plaintext.Layout.{
  padding_tlvs, padding-IsTlv, serialize_all-append, unpadded_len, append_tlvs_layout,
  calculate_padding_len_fills,
}

-- A C string: no byte of it is NUL.
abbrev pub IsText : Bytes → Type 0
IsText = All (λ b. 0 < b)

behind_nul-text : (msg rest : Bytes) → IsText msg → behind_nul (msg ++ (0 ∷ rest)) ≡ some rest
unfolding behind_nul
behind_nul-text [] rest h = refl
behind_nul-text (zero ∷ msg) rest h = elim h.0 [ ]
behind_nul-text (suc b ∷ msg) rest h = behind_nul-text msg rest h.1

before_nul-text : (msg rest : Bytes) → IsText msg → before_nul (msg ++ (0 ∷ rest)) ≡ msg
unfolding before_nul
before_nul-text [] rest h = refl
before_nul-text (zero ∷ msg) rest h = elim h.0 [ ]
before_nul-text (suc b ∷ msg) rest h = ap (λ r. suc b ∷ r) (before_nul-text msg rest h.1)

All-append {ℓ κ} :
    {A : Type ℓ} (P : A → Type κ) (xs ys : List A) → All P xs → All P ys → All P (xs ++ ys)
All-append P [] ys hx hy = hy
All-append P (x ∷ xs) ys hx hy = (hx.0, All-append P xs ys hx.1 hy)

received-layout :
    (msg : Bytes) (ts : List Tlv)
    → IsText msg
    → All IsTlv ts
    → deserialize_received_tlvs (msg ++ (0 ∷ serialize_all ts)) ≡ some ts
unfolding deserialize_received_tlvs
received-layout msg ts m w =
    rw (behind_nul-text msg (serialize_all ts) m, deserialize_received_tlvs)
      (rw append-nil at
        (parse_tlvs-serialize_all ts [] w (unfold parse_tlv deserialize_uint16 in refl)))

padding_fits : (n max : ℕ) → max < 2 ^ 16 → calculate_padding_len n max < 2 ^ 16
unfolding calculate_padding_len
padding_fits n max h = ground arith

-- Where a text without NUL and well-formed records are laid out with a granularity below 2 ^ 16, the
-- receiver of the plaintext displays the text, nothing for the empty one, and gets the records in
-- order, followed by at most one record of padding.
pub receive-append_tlvs :
    (msg : Bytes) (ts : List Tlv) (max : ℕ) (plain : Bytes) (n : ℕ)
    → IsText msg
    → All IsTlv ts
    → max < 2 ^ 16
    → append_tlvs msg ts max ≡ some (plain, n)
    → (to_display plain ≡ (if length msg == 0 then none else some msg))
      × (deserialize_received_tlvs plain
          ≡ some (ts ++ padding_tlvs (calculate_padding_len (unpadded_len msg ts) max)))
unfolding to_display
receive-append_tlvs msg ts max plain n m w h e =
    let p = calculate_padding_len (unpadded_len msg ts) max in
    let all : List Tlv = ts ++ padding_tlvs p in
    let same : plain ≡ msg ++ (0 ∷ serialize_all all) = cc (append_tlvs_layout msg ts max w h) in
    let wf =
      All-append IsTlv ts (padding_tlvs p) w
        (padding-IsTlv p (padding_fits (unpadded_len msg ts) max h)) in
    rw same (rw (before_nul-text msg (serialize_all all) m), received-layout msg all m wf)

length-padding_tlvs : (n : ℕ) → 1 ≤ n → n < 2 ^ 16 → length (serialize_all (padding_tlvs n)) ≡ 4 + n
length-padding_tlvs zero h fits = elim h [ ]
length-padding_tlvs (suc n) h fits =
    let pad : Tlv = record { type = padding; len = suc n; bytes = replicate (suc n) 0 } in
    rw (append-nil (tlv_serialize pad)) (length-tlv_serialize pad (padding-IsTlv (suc n) fits).0)

-- With a granularity between 1 and 2 ^ 16 - 1 set, every plaintext of well-formed records is one byte
-- short of a multiple of it, whatever the text is, and the size that is told is its length.
pub append_tlvs_size :
    (msg : Bytes) (ts : List Tlv) (max : ℕ) (plain : Bytes) (n : ℕ)
    → All IsTlv ts
    → 0 < max
    → max < 2 ^ 16
    → append_tlvs msg ts max ≡ some (plain, n)
    → (length plain ≡ n) × ((n + 1) % max ≡ 0)
append_tlvs_size msg ts max plain n w pos h e =
    let len = unpadded_len msg ts in
    let p = calculate_padding_len len max in
    let pad : Bytes = serialize_all (padding_tlvs p) in
    let layout = append_tlvs_layout msg ts max w h in
    let same : plain ≡ msg ++ (0 ∷ serialize_all (ts ++ padding_tlvs p)) = cc layout in
    let size : n ≡ length plain = cc (layout, ap length same) in
    let (full, low, high) = calculate_padding_len_fills len max pos in
    let sum : n + 1 ≡ len + 4 + 1 + p = omega (
      arith,
      size,
      ap length same,
      ap length (serialize_all-append ts (padding_tlvs p)),
      length-append msg (0 ∷ serialize_all (ts ++ padding_tlvs p)),
      length-append (serialize_all ts) pad,
      length-padding_tlvs p low (padding_fits len max h),
    ) in
    (sym size, rw sum full)
