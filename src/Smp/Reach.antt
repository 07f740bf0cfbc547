-- ===== src/Smp/Reach.antt =====
-- The states of a conversation's protocol that can be reached, over src/smp.c.
use libotrv.Prelude.{ℕ, ◌≡◌, refl, Option, Bytes}
use libotrv.Smp.Safety.{Steps}
use libotrv.Crypto.{Goldilocks, Shake}
use libotrv.Tlv.{Tlv}
use libotrv.Smp.State.{expect_1, Smp, Chance, ran}
use libotrv.Smp.Machine.{expects, Reply, process_smp}
use libotrv.Smp.Session.{smp_initiate, smp_provide_secret, smp_protocol_init, smp_abort_v4}
use libotrv.Smp.Ready.{
  Ready, RunReady-ran, Ready-other, initiate-RunReady, provide-RunReady, process-RunReady,
  Ready-Steps,
}

module _ (g : Goldilocks) (k : Shake) where
  -- A state after `otrng_smp_protocol_init` and any sequence of received records, starts, answers
  -- and aborts of the user, none of which read a null pointer.
  pub data Reachable : Smp g → Type 0 where
    initial : (p : g.Point) (s : g.Scalar) → Reachable (smp_protocol_init g k p s)
    received :
        (chance : Chance g) (smp : Smp g) (tlv : Tlv) (reply : Reply) (smp1 : Smp g)
        → Reachable smp
        → process_smp g k chance smp tlv ≡ ran reply smp1
        → Reachable smp1
    initiated :
        (chance : Chance g) (our their question : Option Bytes) (q_len : ℕ) (answer ssid : Bytes)
        (smp : Smp g) (reply : Reply) (smp1 : Smp g)
        → Reachable smp
        → smp_initiate g k chance our their question q_len answer ssid smp ≡ ran reply smp1
        → Reachable smp1
    provided :
        (chance : Chance g) (our their : Option Bytes) (ssid secret : Bytes) (smp : Smp g)
        (reply : Reply) (smp1 : Smp g)
        → Reachable smp
        → smp_provide_secret g k chance our their ssid secret smp ≡ ran reply smp1
        → Reachable smp1
    gave_up : (smp : Smp g) → Reachable smp → Reachable (smp_abort_v4 g k smp)

  -- Every state that can be reached has its secret whenever the second message is awaited.
  Reachable-Ready : (smp : Smp g) → Reachable smp → Ready g k smp
  Reachable-Ready _ (initial p s) =
      unfold smp_protocol_init in Ready-other g k _ expect_1 (unfold expects in refl) refl
  Reachable-Ready _ (received chance smp tlv reply smp1 r e) =
      RunReady-ran g k _ reply smp1
        (process-RunReady g k chance smp tlv.type tlv.len tlv.bytes (Reachable-Ready smp r)) e
  Reachable-Ready _ (initiated chance our their question q_len answer ssid smp reply smp1 r e) =
      RunReady-ran g k _ reply smp1
        (initiate-RunReady g k chance our their question q_len answer ssid smp
          (Reachable-Ready smp r))
        e
  Reachable-Ready _ (provided chance our their ssid secret smp reply smp1 r e) =
      RunReady-ran g k _ reply smp1
        (provide-RunReady g k chance our their ssid secret smp (Reachable-Ready smp r)) e
  Reachable-Ready _ (gave_up smp r) =
      unfold smp_abort_v4 in Ready-other g k _ expect_1 (unfold expects in refl) refl

  -- In every state that a conversation can reach, every record is handled without reading a null
  -- pointer, the state goes along the diagram, and the event is a success only if the message that
  -- is due was read, its points and proofs are valid, and the last comparison of the protocol holds.
  pub Reachable-Steps :
      (chance : Chance g) (smp : Smp g) (tlv : Tlv)
      → Reachable smp
      → Steps g k smp tlv (process_smp g k chance smp tlv)
  Reachable-Steps chance smp tlv r = Ready-Steps g k chance smp tlv (Reachable-Ready smp r)
