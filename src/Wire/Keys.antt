-- ===== src/Wire/Keys.antt =====
-- Points and Diffie-Hellman numbers on the wire: src/mpi.c, and the parts of src/ed448.c, src/dh.c,
-- src/serialize.c and src/deserialize.c that concern them.
mod Codec
mod Laws
unfoldable pub use Codec.*
pub use Laws.*
