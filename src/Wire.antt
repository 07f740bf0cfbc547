-- ===== src/Wire.antt =====
-- The wire format of src/serialize.c and src/deserialize.c.
mod Tests
pub mod Serialize
pub mod Deserialize
pub mod RoundTrip
pub mod Phi
pub mod Keys
pub mod PublicKeys
