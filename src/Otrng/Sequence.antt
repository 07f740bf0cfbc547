-- ===== src/Otrng/Sequence.antt =====
-- A sequence of data messages of one ratchet, which src/otrng.c reads one after the other.
use mathlib.Core.Path.{subst}
use libotrv.Prelude.{
  ℕ, ◌≡◌, refl, sym, true, false, none, some, List, [], ◌∷◌, ◌++◌, map, &&-eq_true, All, Bytes,
}
use libotrv.Crypto.{Goldilocks, Shake, Gcrypt, Sodium}
use libotrv.DataMessage.{DataMessage}
use libotrv.Kdf.{ShakeLaws}
use libotrv.Run.{Run, success, ◌>>=◌}
use libotrv.KeyExchange.{is_empty_array}
use libotrv.KeyManager.State.{
  receiving_ratchet_new, set_their_keys, receiving_ratchet_copy, set_their_tmp_keys,
}
use libotrv.KeyManager.Hashes.{MessageKeys}
use libotrv.KeyManager.Ratchet.{Manager, Receiving}
use libotrv.KeyManager.Schedule.{keys_of, chain_at, skipped_entry}
use libotrv.KeyManager.Window.{Window, accepts, receive, accepts_all, receive_all}
use libotrv.KeyManager.Skipped.{IsOlder}
use libotrv.Otrng.Receive.{
  Response, decrypt_data_message, receive_keys, valid_data_message, open_message,
  receive_data_message,
}
use libotrv.Otrng.Delivery.{Represents, IsReceived, receive_keys-IsReceived}

module _ (g : Goldilocks) (c : Gcrypt) (s : Shake) (d : Sodium) where
  -- One message after the other, with the TLVs left aside.
  unfoldable pub receive_messages :
      Manager g c s
      → ℕ
      → List (DataMessage g c)
      → Run (Manager g c s) (List Response × Manager g c s)
  receive_messages m max_stored [] = success ([], m)
  receive_messages m max_stored (msg ∷ msgs) = do
    (response, m1) ← receive_data_message g c s d m max_stored msg
    (responses, m2) ← receive_messages m1 max_stored msgs
    success (response ∷ responses, m2)

  -- What the message is opened with: its MAC is that of the keys, and it decrypts to the response.
  pub record IsSealed (keys : MessageKeys) (msg : DataMessage g c) (response : Response)
      : Type 0 where
    pub authentic : valid_data_message g c s d keys.mac_key msg ≡ true
    pub decrypted : decrypt_data_message g c d keys.enc_key msg ≡ some response

module _ (g : Goldilocks) (c : Gcrypt) (s : Shake) (d : Sodium) (laws : ShakeLaws s) where
  -- A message of the ratchet that the other side starts with `p` and `chain`, with its text.
  abbrev pub IsGenuine : g.Point → Bytes → DataMessage g c × Response → Type 0
  IsGenuine p chain (msg, response) =
      (msg.ecdh ≡ p)
      × IsSealed g c s d (keys_of s laws (chain_at s laws msg.message_id chain)) msg response

  -- The key manager is in that ratchet, as far as the window says.
  unfoldable pub IsInWindow : g.Point → Bytes → Window → Manager g c s → Type 0
  IsInWindow p chain w m =
      Represents g c s laws chain w
        (set_their_tmp_keys g c s p none (receiving_ratchet_new g c s m))
      × (g.point_eq p m.their_ecdh ≡ true)

  open_message_lem :
      (keys : MessageKeys) (m : Manager g c s) (tmp : Receiving g c s) (msg : DataMessage g c)
      (response : Response)
      → IsSealed g c s d keys msg response
      → open_message g c s d keys m tmp msg ≡ success (response, receiving_ratchet_copy g c s m tmp)
  unfolding open_message
  open_message_lem keys m tmp msg response ok = rw (ok.authentic, ok.decrypted) refl

  -- The key manager that takes over a ratchet in the window is in the window.
  copy-IsInWindow :
      (p : g.Point) (chain : Bytes) (w : Window) (m : Manager g c s) (tmp : Receiving g c s)
      → tmp.their_ecdh ≡ p
      → g.point_eq p p ≡ true
      → Represents g c s laws chain w tmp
      → IsInWindow p chain w (receiving_ratchet_copy g c s m tmp)
  unfolding IsInWindow set_their_tmp_keys receiving_ratchet_new receiving_ratchet_copy
      set_their_keys
  copy-IsInWindow p chain w m tmp their self r = (
    record {
      counter = r.counter;
      key = r.key;
      older = r.older;
      older-IsOlder = subst (λ q. All (IsOlder g c s q) r.older) their r.older-IsOlder;
      stored =
          subst
            (λ q. tmp.skipped_keys ≡ r.older ++ map (skipped_entry g c s laws q chain) w.pending)
            their r.stored;
    },
    subst (λ q. g.point_eq p q ≡ true) (sym their) self,
  )

  receive_data_message_lem :
      (m : Manager g c s) (max : ℕ) (msg : DataMessage g c) (response : Response)
      (keys : MessageKeys) (tmp : Receiving g c s)
      → receive_keys g c s m
          (set_their_tmp_keys g c s msg.ecdh msg.dh (receiving_ratchet_new g c s m))
          max
          msg
        ≡ success (keys, (m, tmp))
      → IsSealed g c s d keys msg response
      → receive_data_message g c s d m max msg
        ≡ success (response, receiving_ratchet_copy g c s m tmp)
  unfolding receive_data_message
  receive_data_message_lem m max msg response keys tmp got sealed =
      rw (got, open_message_lem keys m tmp msg response sealed) refl

  -- The window of a received message is that of the message's own point.
  at_message :
      (chain : Bytes) (w : Window) (m : Manager g c s) (msg : DataMessage g c)
      → IsInWindow msg.ecdh chain w m
      → Represents g c s laws chain w
          (set_their_tmp_keys g c s msg.ecdh msg.dh (receiving_ratchet_new g c s m))
  unfolding IsInWindow set_their_tmp_keys receiving_ratchet_new
  at_message chain w m msg (r, at) = record {
    counter = r.counter;
    key = r.key;
    older = r.older;
    older-IsOlder = r.older-IsOlder;
    stored = r.stored;
  }

  receive_from :
      (chain : Bytes) (w : Window) (m : Manager g c s) (max : ℕ) (msg : DataMessage g c)
      → g.point_eq msg.ecdh msg.ecdh ≡ true
      → ((n : ℕ) → is_empty_array (chain_at s laws n chain) ≡ false)
      → IsInWindow msg.ecdh chain w m
      → accepts max w msg.message_id ≡ true
      → IsReceived g c s laws chain w max m
          (set_their_tmp_keys g c s msg.ecdh msg.dh (receiving_ratchet_new g c s m))
          msg
  unfolding IsInWindow set_their_tmp_keys receiving_ratchet_new
  receive_from chain w m max msg self full (r, at) ok =
      receive_keys-IsReceived g c s laws m
        (set_their_tmp_keys g c s msg.ecdh msg.dh (receiving_ratchet_new g c s m)) chain w max msg
        (at_message chain w m msg (r, at)) refl self at (rw r.key (full m.k)) ok

  -- One message that the window accepts is opened, and the window goes on.
  receive_one :
      (chain : Bytes) (w : Window) (m : Manager g c s) (max : ℕ) (msg : DataMessage g c)
      (response : Response)
      → g.point_eq msg.ecdh msg.ecdh ≡ true
      → ((n : ℕ) → is_empty_array (chain_at s laws n chain) ≡ false)
      → IsInWindow msg.ecdh chain w m
      → accepts max w msg.message_id ≡ true
      → IsSealed g c s d (keys_of s laws (chain_at s laws msg.message_id chain)) msg response
      → (m1 : Manager g c s) × (receive_data_message g c s d m max msg ≡ success (response, m1))
        × IsInWindow msg.ecdh chain (receive w msg.message_id) m1
  unfolding set_their_tmp_keys
  receive_one chain w m max msg response self full at ok sealed =
      let (tmp, got, extra, their, r) = receive_from chain w m max msg self full at ok in
      (
        receiving_ratchet_copy g c s m tmp,
        receive_data_message_lem m max msg response
            (keys_of s laws (chain_at s laws msg.message_id chain)) tmp got sealed,
        copy-IsInWindow msg.ecdh chain (receive w msg.message_id) m tmp their self r,
      )

  -- The messages of one ratchet can come in any order that the window accepts: every one of them
  -- gets the keys of its number in the chain and is opened, and the key manager stays in the window.
  -- The chain keys must not be all zero bytes, and the point must compare equal to itself.
  pub receive_messages-window :
      (p : g.Point) (chain : Bytes) (w : Window) (m : Manager g c s) (max : ℕ)
      (sent : List (DataMessage g c × Response))
      → g.point_eq p p ≡ true
      → ((n : ℕ) → is_empty_array (chain_at s laws n chain) ≡ false)
      → IsInWindow p chain w m
      → accepts_all max w (map (λ x. x.0.message_id) sent) ≡ true
      → All (IsGenuine p chain) sent
      → (m1 : Manager g c s) × (receive_messages g c s d m max (map (λ x. x.0) sent)
          ≡ success (map (λ x. x.1) sent, m1))
        × IsInWindow p chain (receive_all w (map (λ x. x.0.message_id) sent)) m1
  unfolding receive_messages accepts_all receive_all
  receive_messages-window p chain w m max [] self full at ok _ = (m, refl, at)
  receive_messages-window p chain w m max ((msg, response) ∷ sent) self full at ok
        ((from, sealed), rest) =
      let (ok1, oks) =
        &&-eq_true (accepts max w msg.message_id)
          (accepts_all max (receive w msg.message_id) (map (λ x. x.0.message_id) sent)) ok in
      let (m1, got, at1) =
        receive_one chain w m max msg response (subst (λ q. g.point_eq q q ≡ true) (sym from) self)
          full (subst (λ q. IsInWindow q chain w m) (sym from) at) ok1 sealed in
      let (m2, gots, at2) =
        receive_messages-window p chain (receive w msg.message_id) m1 max sent self full
          (subst (λ q. IsInWindow q chain (receive w msg.message_id) m1) from at1) oks rest in
      (m2, rw (got, gots) refl, at2)
