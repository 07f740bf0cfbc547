-- ===== src/Plaintext/Layout.antt =====
-- What the receiver finds in a plaintext that `append_tlvs` laid out.
use libotrv.Prelude.{
  ℕ, zero, suc, ◌+◌, ◌-◌, ◌%◌, ◌^◌, ◌≤◌, ◌<◌, ◌≡◌, refl, sym, ap, ◌∙◌, not, Option, none, some,
  List, [], ◌∷◌, ◌++◌, append-nil, append_assoc, arith, ◌==◌, if◌then◌else◌, length, replicate, All,
  length-append, length-replicate, take_whole, Bytes, ◌>>=◌, ◌>>◌, require,
}
use native.Mathlib.Nat.{mod-lt, mod-add-mod, mod_self}
use libotrv.Tlv.{Tlv, padding, tlv_new, tlv_padding_new, tlv_serialize}
use libotrv.Tlv.Parse.{IsTlv, serialize_all, length-tlv_serialize}
use libotrv.Plaintext.{
  calculate_padding_len, generate_padding, tlvs_len, write_tlvs, serialize_tlvs, or_nothing,
  append_tlvs,
}

fill_up : (n max : ℕ) → 0 < max → (n + (max - n % max)) % max ≡ 0
fill_up n max h =
    sym (mod-add-mod n max (max - n % max))
    ∙ ap (λ (t : ℕ). t % max)
        (let s : n % max + (max - n % max) ≡ max = omega (arith, mod-lt n h) in s)
    ∙ mod_self max

-- The padding fills the message, its header and one byte more up to a multiple of the granularity,
-- with at least one byte and at most `max`.
pub calculate_padding_len_fills :
    (msg_len max : ℕ)
    → 0 < max
    → let p = calculate_padding_len msg_len max in
      ((msg_len + 4 + 1 + p) % max ≡ 0) × (1 ≤ p) × (p ≤ max)
unfolding calculate_padding_len
calculate_padding_len_fills msg_len max h =
    ground (arith, fill_up (msg_len + 4 + 1) max h, mod-lt (msg_len + 4 + 1) h)

-- The padding record that `generate_padding` writes, if any.
abbrev pub padding_tlvs : ℕ → List Tlv
padding_tlvs zero = []
padding_tlvs (suc n) = record { type = padding; len = suc n; bytes = replicate (suc n) 0 } ∷ []

write_tlvs-eq : (ts : List Tlv) → write_tlvs ts ≡ serialize_all ts
unfolding write_tlvs
write_tlvs-eq [] = refl
write_tlvs-eq (t ∷ ts) = ap (λ r. tlv_serialize t ++ r) (write_tlvs-eq ts)

serialize_tlvs-bytes : (ts : List Tlv) → or_nothing (serialize_tlvs ts).0 ≡ serialize_all ts
unfolding serialize_tlvs
serialize_tlvs-bytes [] = refl
serialize_tlvs-bytes (t ∷ ts) = write_tlvs-eq (t ∷ ts)

write_tlvs-len : (ts : List Tlv) → All IsTlv ts → length (write_tlvs ts) ≡ tlvs_len ts
unfolding write_tlvs tlvs_len
write_tlvs-len [] w = refl
write_tlvs-len (t ∷ ts) w = omega (
  arith,
  length-append (tlv_serialize t) (write_tlvs ts),
  length-tlv_serialize t w.0,
  write_tlvs-len ts w.1,
)

-- `serialize_tlvs` fills the buffer that it allocates exactly.
serialize_tlvs-len :
    (ts : List Tlv)
    → All IsTlv ts
    → length (or_nothing (serialize_tlvs ts).0) ≡ (serialize_tlvs ts).1
unfolding serialize_tlvs tlvs_len
serialize_tlvs-len [] w = refl
serialize_tlvs-len (t ∷ ts) w = write_tlvs-len (t ∷ ts) w

pub padding-IsTlv : (n : ℕ) → n < 2 ^ 16 → All IsTlv (padding_tlvs n)
padding-IsTlv zero h = tt
padding-IsTlv (suc n) h = (record { fits = h; exact = sym (length-replicate (suc n) 0) }, tt)

-- The bytes that `generate_padding` hands back for a padding of `n` zeros.
abbrev Padded : ℕ → Option (Option Bytes) → Type 0
Padded n result =
    (dst : Option Bytes) × (result ≡ some dst) × (or_nothing dst ≡ serialize_all (padding_tlvs n))

tlv_padding_new_lem :
    (n : ℕ)
    → n < 2 ^ 16
    → tlv_padding_new n ≡ some (record { type = padding; len = n; bytes = replicate n 0 })
unfolding tlv_padding_new tlv_new
tlv_padding_new_lem n h =
    let e : n % 2 ^ 16 ≡ n = omega arith in
    rw (e, take_whole {A = ℕ} n (replicate n 0) (sym (length-replicate {A = ℕ} n 0)))

generate_padding_of :
    (n : ℕ)
    → n < 2 ^ 16
    → Padded n (
        if n == 0 then some none else (do
          tlv ← tlv_padding_new n
          let dst = tlv_serialize tlv
          require (not (length dst == 0))
          some (some dst)))
generate_padding_of zero h = (none, refl, refl)
generate_padding_of (suc n) h =
    let pad : Tlv = record { type = padding; len = suc n; bytes = replicate (suc n) 0 } in
    rw (tlv_padding_new_lem (suc n) h) (
      some (tlv_serialize pad),
      ground (arith, length-tlv_serialize pad (padding-IsTlv (suc n) h).0),
      sym (append-nil (tlv_serialize pad)),
    )

-- The length of the text, its NUL and the records, as `append_tlvs` hands it to `generate_padding`.
abbrev pub unpadded_len : Bytes → List Tlv → ℕ
unpadded_len msg ts = length msg + 1 + length (serialize_all ts)

pub serialize_all-append :
    (ts us : List Tlv) → serialize_all (ts ++ us) ≡ serialize_all ts ++ serialize_all us
serialize_all-append [] us = refl
serialize_all-append (t ∷ ts) us =
    ap (λ r. tlv_serialize t ++ r) (serialize_all-append ts us)
    ∙ sym (append_assoc (tlv_serialize t) (serialize_all ts) (serialize_all us))

generate_padding_lem :
    (msg_len max : ℕ)
    → max < 2 ^ 16
    → Padded (calculate_padding_len msg_len max) (generate_padding msg_len max)
unfolding generate_padding
generate_padding_lem msg_len max h =
    generate_padding_of (calculate_padding_len msg_len max) (omega (arith, bound))
  where
    bound : calculate_padding_len msg_len max ≤ max
    bound = unfold calculate_padding_len in ground arith

tlvs_len-eq : (ts : List Tlv) → All IsTlv ts → (serialize_tlvs ts).1 ≡ length (serialize_all ts)
tlvs_len-eq ts w = sym (rw (serialize_tlvs-bytes ts) at (serialize_tlvs-len ts w))

-- `append_tlvs` lays out the text, a NUL, the records and one padding record, and the buffer that it
-- allocates has exactly this size: for well-formed records and a granularity below 2 ^ 16.
pub append_tlvs_layout :
    (msg : Bytes) (ts : List Tlv) (max : ℕ)
    → All IsTlv ts
    → max < 2 ^ 16
    → let plain =
        msg
        ++ (0
            ∷ serialize_all
                (ts ++ padding_tlvs (calculate_padding_len (unpadded_len msg ts) max))) in
      append_tlvs msg ts max ≡ some (plain, length plain)
unfolding append_tlvs
append_tlvs_layout msg ts max w h =
    let (dst, done, bytes) = generate_padding_lem (unpadded_len msg ts) max h in
    let pad : Bytes =
      serialize_all (padding_tlvs (calculate_padding_len (unpadded_len msg ts) max)) in
    let all : Bytes = serialize_all ts in
    rw (tlvs_len-eq ts w) (
      rw done (
        rw (serialize_tlvs-bytes ts, bytes, serialize_all-append ts)
          (ap (λ (n : ℕ). some (msg ++ (0 ∷ (all ++ pad)), n))
            (omega (arith, length-append msg (0 ∷ (all ++ pad)), length-append all pad)))))
