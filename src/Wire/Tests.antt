-- ===== src/Wire/Tests.antt =====
-- The phi of two pairs of instance tags.
use libotrv.Prelude.{◌+◌, ◌*◌, ◌^◌, ◌≡◌, refl, inr, [], ◌∷◌}
use mathlib.Core.Logic.{◌↔◌}
use libotrv.Wire.Serialize.{serialize_phi}
use libotrv.Wire.Phi.{HaveSameLowBits, serialize_phi-HaveSameLowBits}

serialize_phi-HaveSameLowBits_example :
    serialize_phi (5 ∷ []) (256 + 1 * 2 ^ 16) 300 ≡ serialize_phi (5 ∷ []) (300 + 7 * 2 ^ 16) 256
    ↔ HaveSameLowBits (256 + 1 * 2 ^ 16) 300 (300 + 7 * 2 ^ 16) 256
serialize_phi-HaveSameLowBits_example =
    serialize_phi-HaveSameLowBits (5 ∷ []) (256 + 1 * 2 ^ 16) 300 (300 + 7 * 2 ^ 16) 256

-- Other tags, and the sender of one is the receiver of the other.
same_phi :
    serialize_phi (5 ∷ []) (256 + 1 * 2 ^ 16) 300 ≡ serialize_phi (5 ∷ []) (300 + 7 * 2 ^ 16) 256
same_phi =
    (serialize_phi-HaveSameLowBits (5 ∷ []) (256 + 1 * 2 ^ 16) 300 (300 + 7 * 2 ^ 16) 256).1
      (inr (refl, refl))
