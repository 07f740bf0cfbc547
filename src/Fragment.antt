-- ===== src/Fragment.antt =====
-- src/fragment.c: how a message is cut into fragments.
pub mod Cut
pub mod Assemble
pub mod Expire
mod Tests
use libotrv.Prelude.{
  ℕ, zero, suc, ◌+◌, ◌-◌, ◌/◌, ◌%◌, ◌^◌, ◌<◌, ◌≡◌, not, ◌||◌, Option, none, some, List, [], ◌∷◌,
  ◌++◌, ltb, if◌then◌else◌, length, take, drop, Bytes, ◌>>=◌, ◌>>◌, require,
}

-- FRAGMENT_HEADER_LEN, with the comma behind the piece.
abbrev pub fragment_header_len : ℕ
fragment_header_len = 45

-- `snprintf` with FRAGMENT_FORMAT, of the C library: what it prints of the identifier, the two
-- instance tags, the number of the fragment, how many there are, and the piece; `none` is a
-- negative result.
pub record Printf : Type 0 where
  pub print : ℕ → ℕ → ℕ → ℕ → ℕ → Bytes → Option Bytes

-- The fields of FRAGMENT_FORMAT have fixed widths for 32-bit tags and 16-bit numbers: 44 bytes stand
-- in front of the piece, and a comma (44) behind it.
pub record PrintfLaws (c : Printf) : Type 0 where
  pub prefix : ℕ → ℕ → ℕ → ℕ → ℕ → Bytes
  pub length-prefix :
      (identifier ours theirs current total : ℕ)
      → identifier < 2 ^ 32
      → ours < 2 ^ 32
      → theirs < 2 ^ 32
      → current < 2 ^ 16
      → total < 2 ^ 16
      → length (prefix identifier ours theirs current total) ≡ 44
  pub print_prefix :
      (identifier ours theirs current total : ℕ) (piece : Bytes)
      → c.print identifier ours theirs current total piece
        ≡ some (prefix identifier ours theirs current total ++ (piece ++ (44 ∷ [])))

module _ (c : Printf) where
  -- What is printed is cut to the size of the buffer less the NUL.
  unfoldable pub create_fragment_message : Bytes → ℕ → ℕ → ℕ → ℕ → ℕ → ℕ → Option Bytes
  create_fragment_message piece piece_len identifier our_instance their_instance current total = do
    require (not (ltb (length piece) piece_len))
    dst ← c.print identifier our_instance their_instance current total (take piece_len piece)
    some (take (fragment_header_len + piece_len) dst)

  -- The loop of `otrng_fragment_message`; the first argument counts the fragments that are left, and
  -- `i` those that are made.
  unfoldable pub fragment_loop : ℕ → ℕ → ℕ → ℕ → ℕ → ℕ → ℕ → Bytes → Option (List Bytes)
  fragment_loop zero i total limit identifier our_instance their_instance msg = some []
  fragment_loop (suc left) i total limit identifier our_instance their_instance msg =
      let piece_len = if ltb (length msg) limit then length msg else limit in
      create_fragment_message msg piece_len identifier our_instance their_instance (i + 1) total
      >>= λ dst.
          fragment_loop left (i + 1) total limit identifier our_instance their_instance
            (drop piece_len msg)
          >>= λ rest. some (dst ∷ rest)

  -- `otrng_fragment_message` for a `max_size` above the header; the identifier is the random one.
  -- `msg_len - 1` wraps for the empty message, and `total` is cut to 32 bits: as an `int` it is
  -- negative from 2 ^ 31 on, which the test rejects as well.
  unfoldable pub fragment_message : ℕ → ℕ → ℕ → ℕ → Bytes → Option (List Bytes)
  fragment_message max_size identifier our_instance their_instance msg =
      let limit = max_size - fragment_header_len in
      let total = ((length msg + (2 ^ 64 - 1)) % 2 ^ 64 / limit + 1) % 2 ^ 32 in
      if ltb total 1 || ltb 65535 total
      then none
      else fragment_loop total 0 total limit identifier our_instance their_instance msg
