-- ===== src/Tlv/Parse.antt =====
-- `parse_tlv` and `otrng_parse_tlvs` of src/tlv.c on any input, and on what `otrng_tlv_serialize` wrote.
use libotrv.Prelude.{
  ℕ, zero, suc, ◌+◌, ◌*◌, ◌^◌, ◌≤◌, ◌<◌, ◌≡◌, refl, sym, ap, ◌∙◌, inl, inr, Option, none, some,
  List, [], ◌∷◌, ◌++◌, append-nil, append_assoc, arith, Option-cases, length, take, drop, All,
  length-append, length-drop, length-take, take_prefix, take_whole, drop_prefix, Bytes, AreBytes,
}
use libotrv.Wire.Serialize.{serialize_uint16, serialize_bytes_array}
use libotrv.Wire.Deserialize.{deserialize_uint16}
use libotrv.Wire.RoundTrip.{deserialize-serialize_uint16, drop-serialize_uint16}
use libotrv.Tlv.{
  TlvType, tlv_none, padding, type_code, Tlv, set_tlv_type, tlv_serialize, parse_tlv, append_tlv,
  parse_tlvs_loop, parse_tlvs,
}

-- A record whose value has the length that it announces, in 16 bits.
pub record IsTlv (t : Tlv) : Type 0 where
  pub fits : t.len < 2 ^ 16
  pub exact : t.len ≡ length t.bytes

set_tlv_type-type_code : (t : TlvType) → set_tlv_type (type_code t) ≡ t
unfolding set_tlv_type type_code
set_tlv_type-type_code tlv_none = refl
set_tlv_type-type_code padding = refl
set_tlv_type-type_code _ = refl

type_code-lt : (t : TlvType) → type_code t < 2 ^ 16
unfolding type_code
type_code-lt tlv_none = omega arith
type_code-lt padding = omega arith
type_code-lt _ = omega arith

tlv_serialize_append :
    (t : Tlv) (rest : Bytes)
    → IsTlv t
    → tlv_serialize t ++ rest
      ≡ serialize_uint16 (type_code t.type) ++ (serialize_uint16 t.len ++ (t.bytes ++ rest))
unfolding tlv_serialize serialize_bytes_array serialize_uint16
tlv_serialize_append t rest h = rw (take_whole t.len t.bytes h.exact)

parse_tlv_header :
    (code len : ℕ) (value : Bytes)
    → code < 2 ^ 16
    → len < 2 ^ 16
    → len ≤ length value
    → parse_tlv (serialize_uint16 code ++ (serialize_uint16 len ++ value))
      ≡ some (record { type = set_tlv_type code; len = len; bytes = take len value }, 4 + len)
unfolding parse_tlv
parse_tlv_header code len value hc hl h =
    rw
      (
        deserialize-serialize_uint16 code (serialize_uint16 len ++ value) hc,
        drop-serialize_uint16 code (serialize_uint16 len ++ value),
        deserialize-serialize_uint16 len value hl,
        drop-serialize_uint16 len value,
      )
      (ground arith)

-- `parse_tlv` reads back the record that `otrng_tlv_serialize` wrote, and takes exactly its bytes.
pub parse_tlv-tlv_serialize :
    (t : Tlv) (rest : Bytes) → IsTlv t → parse_tlv (tlv_serialize t ++ rest) ≡ some (t, 4 + t.len)
parse_tlv-tlv_serialize t rest h = rw (tlv_serialize_append t rest h) (
    rw
      (parse_tlv_header (type_code t.type) t.len (t.bytes ++ rest) (type_code-lt t.type) h.fits
        (omega (arith, h.exact, length-append t.bytes rest)))
      (ground (arith, set_tlv_type-type_code t.type, take_prefix t.len t.bytes rest h.exact)))

-- A record that was parsed takes at least its header, fits in the input and is well formed.
parse_tlv_takes :
    (src : Bytes) (t : Tlv) (read : ℕ)
    → AreBytes src
    → parse_tlv src ≡ some (t, read)
    → IsTlv t × (read ≡ 4 + t.len) × (read ≤ length src)
unfolding parse_tlv deserialize_uint16
parse_tlv_takes [] t read b e = cc
parse_tlv_takes (a ∷ []) t read b e = cc
parse_tlv_takes (a ∷ a' ∷ []) t read b e = cc
parse_tlv_takes (a ∷ a' ∷ l ∷ []) t read b e = cc
parse_tlv_takes (a ∷ a' ∷ l ∷ l' ∷ value) t read b e =
    ground (arith, length-take (l' + l * 2 ^ 8) value)

pub length-tlv_serialize : (t : Tlv) → IsTlv t → length (tlv_serialize t) ≡ 4 + t.len
unfolding tlv_serialize serialize_bytes_array serialize_uint16
length-tlv_serialize t h = omega (arith, length-take t.len t.bytes (omega (arith, h.exact)))

-- The loop that writes a list of records one after the other.
abbrev pub serialize_all : List Tlv → Bytes
serialize_all [] = []
serialize_all (t ∷ ts) = tlv_serialize t ++ serialize_all ts

append_tlv_lem : (ts : List Tlv) (t : Tlv) → append_tlv ts t ≡ ts ++ (t ∷ [])
unfolding append_tlv
append_tlv_lem [] t = refl
append_tlv_lem (s ∷ ts) t = ap (λ r. s ∷ r) (append_tlv_lem ts t)

loop_stop :
    (fuel : ℕ) (src : Bytes) (ret : List Tlv)
    → length src ≤ fuel
    → parse_tlv src ≡ none
    → parse_tlvs_loop fuel src ret ≡ some ret
unfolding parse_tlvs_loop
loop_stop fuel [] ret h e = refl
loop_stop zero (b ∷ src) ret h e = elim h [ ]
loop_stop (suc fuel) (b ∷ src) ret h e = rw (e, parse_tlvs_loop)

loop_step :
    (fuel : ℕ) (src : Bytes) (ret : List Tlv) (t : Tlv) (read : ℕ)
    → parse_tlv src ≡ some (t, read)
    → parse_tlvs_loop (suc fuel) src ret ≡ parse_tlvs_loop fuel (drop read src) (append_tlv ret t)
unfolding parse_tlvs_loop
loop_step fuel [] ret t read e = unfold parse_tlv deserialize_uint16 in cc
loop_step fuel (b ∷ src) ret t read e = rw (e, parse_tlvs_loop)

length-serialize_all_cons :
    (t : Tlv) (ts : List Tlv) (rest : Bytes)
    → IsTlv t
    → length (serialize_all (t ∷ ts) ++ rest) ≡ 4 + t.len + length (serialize_all ts ++ rest)
length-serialize_all_cons t ts rest h = omega (
  arith,
  length-append (tlv_serialize t ++ serialize_all ts) rest,
  length-append (tlv_serialize t) (serialize_all ts),
  length-append (serialize_all ts) rest,
  length-tlv_serialize t h,
)

loop-serialize_all :
    (ts : List Tlv) (rest : Bytes) (fuel : ℕ) (ret : List Tlv)
    → All IsTlv ts
    → parse_tlv rest ≡ none
    → length (serialize_all ts ++ rest) ≤ fuel
    → parse_tlvs_loop fuel (serialize_all ts ++ rest) ret ≡ some (ret ++ ts)
loop-serialize_all [] rest fuel ret w e h = rw append-nil (loop_stop fuel rest ret h e)
loop-serialize_all (t ∷ ts) rest zero ret w e h =
    absurd (omega (arith, length-serialize_all_cons t ts rest w.0))
loop-serialize_all (t ∷ ts) rest (suc fuel) ret w e h =
    let more : Bytes = serialize_all ts ++ rest in
    let size : 4 + t.len ≡ length (tlv_serialize t) = sym (length-tlv_serialize t w.0) in
    let fits : length more ≤ fuel = omega (arith, length-serialize_all_cons t ts rest w.0) in
    rw (append_assoc (tlv_serialize t) (serialize_all ts) rest) (
      loop_step fuel (tlv_serialize t ++ more) ret t (4 + t.len)
        (parse_tlv-tlv_serialize t more w.0)
      ∙ rw (drop_prefix (4 + t.len) (tlv_serialize t) more size, append_tlv_lem ret t)
          (loop-serialize_all ts rest fuel (ret ++ (t ∷ [])) w.1 e fits
            ∙ ap some (append_assoc ret (t ∷ []) ts)))

-- `otrng_parse_tlvs` reads back every record that was written, in order, and stops at the first
-- bytes that are no record, whatever they are.
pub parse_tlvs-serialize_all :
    (ts : List Tlv) (rest : Bytes)
    → All IsTlv ts
    → parse_tlv rest ≡ none
    → parse_tlvs (serialize_all ts ++ rest) ≡ some ts
unfolding parse_tlvs
parse_tlvs-serialize_all ts rest w e = loop-serialize_all ts rest _ [] w e (omega arith)

-- The bytes that the records of a list take.
abbrev pub total_size : List Tlv → ℕ
total_size [] = 0
total_size (t ∷ ts) = 4 + t.len + total_size ts

drop-AreBytes : (n : ℕ) (src : Bytes) → AreBytes src → AreBytes (drop n src)
drop-AreBytes zero src b = b
drop-AreBytes (suc n) [] b = b
drop-AreBytes (suc n) (x ∷ src) b = drop-AreBytes n src b.1

-- What the loop adds behind `ret`.
abbrev LoopDone : Bytes → List Tlv → Option (List Tlv) → Type 0
LoopDone src ret result =
    (ts : List Tlv) × (result ≡ some (ret ++ ts)) × All IsTlv ts × (total_size ts ≤ length src)

LoopDone-extend :
    (src : Bytes) (ret : List Tlv) (t : Tlv) (read : ℕ) (result : Option (List Tlv))
    → IsTlv t × (read ≡ 4 + t.len) × (read ≤ length src)
    → LoopDone (drop read src) (append_tlv ret t) result
    → LoopDone src ret result
LoopDone-extend src ret t read result (wf, size, fits) (ts, done, all, total) = (
  t ∷ ts,
  done ∙ ap some (ap (λ r. r ++ ts) (append_tlv_lem ret t) ∙ append_assoc ret (t ∷ []) ts),
  (wf, all),
  omega (arith, total, size, fits, length-drop read src),
)

loop_total :
    (fuel : ℕ) (src : Bytes) (ret : List Tlv)
    → AreBytes src
    → length src ≤ fuel
    → LoopDone src ret (parse_tlvs_loop fuel src ret)
loop_total zero [] ret b h = ([], unfold parse_tlvs_loop in rw append-nil, tt, omega arith)
loop_total zero (x ∷ src) ret b h = elim h [ ]
loop_total (suc fuel) src ret b h = elim (Option-cases (parse_tlv src)) [
  | inl e ↦ ([], loop_stop (suc fuel) src ret h e ∙ rw append-nil, tt, omega arith)
  | inr ((t, read), e) ↦
      let taken = parse_tlv_takes src t read b e in
      rw (loop_step fuel src ret t read e) (
        LoopDone-extend src ret t read _ taken (
          loop_total fuel (drop read src) (append_tlv ret t) (drop-AreBytes read src b)
            (omega (arith, taken, length-drop read src))))
]

-- `otrng_parse_tlvs` ends on every input. Each record that it returns carries as many bytes as it
-- announces, and all of them together lie inside the input.
pub parse_tlvs_total :
    (src : Bytes)
    → AreBytes src
    → (ts : List Tlv) × (parse_tlvs src ≡ some ts) × All IsTlv ts × (total_size ts ≤ length src)
unfolding parse_tlvs
parse_tlvs_total src b = loop_total (length src) src [] b (omega arith)
