-- ===== src/Lib.antt =====
-- A verification library for libotr-ng, the implementation of version 4 of Off-the-Record messaging.
--
-- The program. Two parties exchange data messages. The text and its records of type, length and value
-- form a plaintext (src/protocol.c, src/tlv.c, src/padding.c); the plaintext is encrypted and becomes the
-- body of a data message (src/data_message.c), whose fields, points and numbers are written by
-- src/serialize.c, src/mpi.c, src/dh.c and src/ed448.c and read by src/deserialize.c. The receiver takes the
-- records out of the plaintext (src/otrng.c) and gives those of the socialist millionaires' protocol to
-- its state machine (src/smp.c, src/smp_protocol.c). The keys of a data message come from the double
-- ratchet (src/key_management.c) over the hash of src/shake.c and the key exchanges of src/dh.c and
-- src/ed448.c: src/protocol.c sends with the key manager, and src/otrng.c receives with a temporary ratchet
-- that replaces the key manager's once the message is authentic. Before that, an interactive key exchange
-- of three messages (src/dake.c), which carry client profiles (src/client_profile.c) and ring signatures
-- (src/auth.c), gives both sides their keys: src/otrng.c answers each message by the state of the
-- conversation. Fragments live in linked lists (src/list.c).
--
-- The files.
--   Prelude, with Prelude/Tests, Lists and Partial: shared names, and lists and options over the native
--     numbers.
--   Crypto: libgoldilocks, libgcrypt, libsodium and libotr, which are not part of the repository. They
--     are records of operations, which the definitions take as parameters, and of documented laws, which
--     the theorems take as hypotheses. Samples: concrete values of these records for the tests.
--   Wire/Serialize and Wire/Deserialize: src/serialize.c and src/deserialize.c. A C function that writes at
--     a cursor is the list of the bytes it writes; one that reads gives the value and the count, or none.
--     The functions keep their names without the prefix otrng_. Wire/Keys: points, multi-precision
--     numbers and Diffie-Hellman numbers. Wire/PublicKeys: keys with their type. Wire/RoundTrip,
--     Wire/Phi and Wire/Keys/Laws: theorems.
--   Tlv: src/tlv.c, with theorems in Tlv/Parse. A list of records is a list, NULL is the empty list.
--   Plaintext: src/padding.c, the two functions of src/protocol.c that build the plaintext, and what
--     src/otrng.c does with a plaintext that was decrypted. Theorems in Plaintext/Layout and
--     Plaintext/RoundTrip.
--   DataMessage: src/data_message.c, with theorems in DataMessage/RoundTrip.
--   Memory and LinkedList: src/list.c on a heap of nodes with addresses. An access to memory that is not
--     allocated is a fault. Theorems in LinkedList/Segment, Append and Remove.
--   Smp: src/smp_protocol.c and src/smp.c. Smp/Hash: src/shake.c and the hashes to scalars. Smp/Messages: the
--     four messages. Smp/State: smp_protocol_s, and runs that can read through a null pointer.
--     Smp/Proofs: the functions that generate the messages and check the proofs; random scalars are
--     arguments. Smp/Machine: the handlers of the records. Smp/Session: starting and answering.
--     Theorems in Smp/Cases, Diagram, Safety, Ready, Reach, Complete, RoundTrip and
--     Session.
--   Kdf: the key derivation functions of src/shake.c. KeyExchange: src/dh.c and the key pairs of
--     src/ed448.c; the random bytes are arguments. KeyExchange/Agreement: the laws of both exchanges. Run:
--     results of functions that change an object, with the object that an error leaves.
--   KeyManager: src/key_management.c. KeyManager/State: the structures, their set-up and copying.
--     Hashes: the derivations. Ephemeral: the ephemeral keys. Ratchet: the Diffie-Hellman ratchet. Chain:
--     message keys and skipped keys. A function that branches on its argument action is two functions,
--     with the endings _s and _r. Theorems in Schedule, Skipped, Rotation, Agreement, Start and
--     Session; KeyManager/Window is what a receiving chain promises, without its keys.
--   Otrng: Otrng/Send is send_data_message of src/protocol.c, Otrng/Receive the part of
--     otrng_receive_data_message_after_dake of src/otrng.c that keys and opens a message. Theorems in
--     Delivery, Sequence, Exchange, Conversation and Forgery.
--   Ring: the ring signature of src/auth.c. Ring/Verify: completeness. Ring/Codec: the signature on the
--     wire.
--   Fragment: how src/fragment.c cuts a message, with the theorem in Fragment/Cut. snprintf of the C
--     library is a parameter with its documented widths as laws. Fragment/Expire: the expiry of fragment
--     contexts, on the linked list. Fragment/Assemble: otrng_unfragment_message, over a list of contexts;
--     sscanf is a parameter. Its theorem is in Fragment/Assemble/Whole.
--   Keys: src/keys.c, the signatures of src/ed448.c and which instance tags of src/instance_tag.c are valid.
--   ClientProfile: src/client_profile.c. ClientProfile itself writes a profile, ClientProfile/Read reads it,
--     Copy copies it, and Validity signs, builds and checks it. Theorems in RoundTrip, Checks, Signed and
--     Cached, over the lemmas of DsaKey, Fields, Sizes and Layout. Times are arguments.
--   PrekeyProfile: src/prekey_profile.c, with theorems in PrekeyProfile/RoundTrip and Signed.
--   Dake: src/dake.c. Dake itself has the third message, Dake/Messages and Dake/Read the others, Dake/Tag
--     what the ring signatures sign. Theorems in RoundTrip, Parts, Exchange and Transcript.
--   Otrng/Handshake: how src/otrng.c makes and checks the messages of the interactive key exchange.
--     Otrng/Handlers: its three handlers, with the conversation and the reply that they leave. Theorems
--     in Otrng/Authenticate and Otrng/States, over the lemmas of Otrng/Outcome.
--
-- Bounds and fuel. A w-bit number is a number below 2 ^ w where a theorem needs it, and wraps where the
-- source converts it. The loop over records has as much fuel as the input has bytes; each round takes
-- four. The loops over linked lists have a fuel argument, and the theorems hold as soon as it is the
-- length of the part of the list in question. The loop that stores skipped keys is counted down by the
-- difference of its bounds. Allocation never fails, since src/alloc.c ends the program
-- where memory is short. Sizes of buffers are taken to be far below SIZE_MAX.
--
-- Not modelled: freeing of memory except in src/list.c; wiping, except of the keys of the key manager; the
-- callbacks (the event is in the result or left out); base64; that the lists of skipped keys of the key
-- manager and of a temporary ratchet share their nodes; revealing the MAC keys of skipped messages; the
-- sending of a query, of tagged plaintext and of errors, the non-interactive key exchange and the handling
-- of records in src/otrng.c; fingerprints; prekey messages and the prekey server client; persistence; and
-- version 3. They are other components, to which this library does not extend yet, or input and output.
pub mod Prelude
pub mod Wire
pub mod Tlv
pub mod Plaintext
pub mod Crypto
mod Samples
pub mod Keys
pub mod ClientProfile
pub mod PrekeyProfile
pub mod Dake
pub mod DataMessage
pub mod Memory
pub mod LinkedList
pub mod Smp
pub mod Fragment
pub mod Kdf
pub mod Run
pub mod KeyExchange
pub mod KeyManager
pub mod Otrng
pub mod Ring
