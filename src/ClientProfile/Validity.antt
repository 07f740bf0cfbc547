-- ===== src/ClientProfile/Validity.antt =====
-- src/client_profile.c: signing, building and checking a profile.
use libotrv.Prelude.{
  ℕ, ◌+◌, ◌-◌, ◌%◌, ◌^◌, Bool, true, false, not, ◌&&◌, Option, none, some, [], ◌∷◌, ◌++◌, ltb, leb,
  ◌==◌, if◌then◌else◌, length, Bytes,
}
use libotrv.Crypto.{Goldilocks, Gcrypt, Eddsa, Libotr, point_bytes}
use libotrv.Wire.Serialize.{serialize_uint16}
use libotrv.Wire.Keys.{serialize_ec_point}
use libotrv.Keys.{instance_tag_valid, Keypair, ec_sign_simple, ec_verify}
use libotrv.KeyExchange.{is_empty_array}
use libotrv.Run.{Run, success, error, crashed, ◌>>=◌, attempt, not_null}
use libotrv.ClientProfile.{
  dsa_sig_bytes, fields_max_bytes, strlen_ns, written_to, ClientProfile, client_profile_zero,
  client_profile_body_serialize_pre_transitional_signature, client_profile_body_serialize_into,
}
use libotrv.ClientProfile.Read.{pubkey_type_dsa, generate_dsa_key_sexp}

-- `difftime(expires, now) <= 0`; the 64-bit number becomes a signed time, so from 2 ^ 63 on it lies
-- before every `now`.
unfoldable pub client_profile_expired : ℕ → ℕ → Bool
client_profile_expired now expires = if ltb expires (2 ^ 63) then leb expires now else true

unfoldable pub client_profile_invalid : ℕ → ℕ → ℕ → Bool
client_profile_invalid now expires extra_valid_time =
    client_profile_expired now ((expires + extra_valid_time) % 2 ^ 64)

-- '3' and '4' are 51 and 52.
unfoldable pub rollback_detected : Bytes → Bool
rollback_detected [] = false
rollback_detected (v ∷ versions) =
    if not (v == 51) && not (v == 52) then true else rollback_detected versions

module _ (g : Goldilocks) (e : Eddsa) (c : Gcrypt) (o : Libotr c) where
  open g use {Point, point_valid}

  -- `client_profile_new` and the fields that `otrng_client_profile_build_with_custom_expiration` sets;
  -- `p` is the point structure with zero bytes.
  unfoldable pub client_profile_new : Point → ℕ → Bytes → Point → ℕ → ClientProfile g
  client_profile_new p instance_tag versions forging_key expiration_time =
      record (client_profile_zero g p) {
        versions = some versions;
        sender_instance_tag = instance_tag;
        expires = expiration_time;
        forging_pub_key = forging_key;
      }

  unfoldable pub client_profile_sign :
      Keypair g → ClientProfile g → Run (Unit {0}) (ClientProfile g)
  client_profile_sign keypair p =
      let q = record p { long_term_pub_key = keypair.public } in
      client_profile_body_serialize_into g q >>= λ body.
      success (record q { signature = ec_sign_simple g e keypair.sym body })

  -- The null pointer that is returned is an error; `versions` and `keypair` are not null.
  unfoldable pub client_profile_build_with_custom_expiration :
      Point → ℕ → Bytes → Keypair g → Point → ℕ → Run (Unit {0}) (ClientProfile g)
  client_profile_build_with_custom_expiration p instance_tag versions keypair forging_key time =
      if not (instance_tag_valid instance_tag)
      then error tt
      else client_profile_sign keypair (client_profile_new p instance_tag versions forging_key time)

  unfoldable pub client_profile_build :
      Point → ℕ → ℕ → Bytes → Keypair g → Point → ℕ → Run (Unit {0}) (ClientProfile g)
  client_profile_build p now instance_tag versions keypair forging_key expiration_time =
      client_profile_build_with_custom_expiration p instance_tag versions keypair forging_key
        ((now + expiration_time) % 2 ^ 64)

  unfoldable pub client_profile_verify_signature : ClientProfile g → Run (Unit {0}) Bool
  client_profile_verify_signature p =
      if is_empty_array p.signature
      then success false
      else client_profile_body_serialize_into g p >>= λ body.
          let pubkey = serialize_ec_point g p.long_term_pub_key in
          if not (length pubkey == point_bytes)
          then success false
          else success (ec_verify g e p.signature pubkey body)

  -- Behind the reading of the DSA key: `none` is a key that is refused.
  unfoldable pub verify_with_sexp : Option o.Sexp → Bytes → ClientProfile g → Run (Unit {0}) Bool
  verify_with_sexp none sig p = success false
  verify_with_sexp (some pubs) sig p =
      let (body, num_fields) = client_profile_body_serialize_pre_transitional_signature g p in
      written_to (fields_max_bytes (strlen_ns p.versions)) body >>= λ bytes.
      if ltb num_fields 5 then success false else success (o.privkey_verify sig pubs bytes)

  -- `verify_transitional_signature` of the DSA key and the transitional signature of `p`.
  unfoldable pub verify_transitional :
      Option Bytes → Option Bytes → ClientProfile g → Run (Unit {0}) Bool
  verify_transitional none transitional p = success true
  verify_transitional (some key) none p = success true
  verify_transitional (some key) (some sig) p =
      if length key == 0
      then success true
      else verify_with_sexp (generate_dsa_key_sexp c o key) sig p

  unfoldable pub verify_transitional_signature : ClientProfile g → Run (Unit {0}) Bool
  verify_transitional_signature p = verify_transitional p.dsa_key p.transitional_signature p

  -- Behind the check of the signature.
  unfoldable pub check_contents : ClientProfile g → ℕ → Run (Unit {0}) Bool
  check_contents p sender_instance_tag =
      if not (sender_instance_tag == p.sender_instance_tag)
      then success false
      else not_null p.versions >>= λ versions.
          if rollback_detected versions
          then success false
          else if not (point_valid p.long_term_pub_key)
          then success false
          else if not (point_valid p.forging_pub_key)
          then success false
          else verify_transitional_signature p

  unfoldable pub client_profile_valid_without_expiry : ClientProfile g → ℕ → Run (Unit {0}) Bool
  client_profile_valid_without_expiry p sender_instance_tag =
      client_profile_verify_signature p >>= λ valid.
      if not valid then success false else check_contents p sender_instance_tag

  unfoldable pub client_profile_valid : ℕ → ClientProfile g → ℕ → Run (Unit {0}) Bool
  client_profile_valid now p sender_instance_tag =
      client_profile_valid_without_expiry p sender_instance_tag >>= λ valid.
      if not valid then success false else success (not (client_profile_expired now p.expires))

  -- The answer, and the profile with the answer stored.
  unfoldable pub client_profile_fast_valid :
      ℕ → ClientProfile g → ℕ → Run (Unit {0}) (Bool × ClientProfile g)
  client_profile_fast_valid now p sender_instance_tag =
      if p.has_validated
      then success (p.validation_result && not (client_profile_expired now p.expires), p)
      else client_profile_valid now p sender_instance_tag >>= λ valid.
          success (valid, record p { validation_result = valid; has_validated = true })

  unfoldable pub client_profile_is_close_to_expiry : ℕ → ClientProfile g → ℕ → Bool
  client_profile_is_close_to_expiry now p buffer_time =
      client_profile_expired now ((p.expires + (2 ^ 64 - buffer_time)) % 2 ^ 64)

  unfoldable pub client_profile_is_expired_but_valid :
      ℕ → ClientProfile g → ℕ → ℕ → Run (Unit {0}) Bool
  client_profile_is_expired_but_valid now p itag extra_valid_time =
      client_profile_valid_without_expiry p itag >>= λ valid. success (
        valid
        && client_profile_expired now p.expires
        && not (client_profile_invalid now p.expires extra_valid_time))

  -- `otrng_client_profile_transitional_sign`, with the profile that an error leaves; `privkey` is not
  -- null.
  unfoldable pub client_profile_transitional_sign :
      o.PrivKey → ClientProfile g → Run (ClientProfile g) (ClientProfile g)
  client_profile_transitional_sign privkey p =
      if not (o.pubkey_type privkey == pubkey_type_dsa)
      then error p
      else let q = record p {
        dsa_key = some (serialize_uint16 pubkey_type_dsa ++ o.pubkey_data privkey);
      } in
        let (body, num_fields) = client_profile_body_serialize_pre_transitional_signature g q in
        if not (leb (length body) (fields_max_bytes (strlen_ns q.versions)))
        then crashed
        else if ltb num_fields 5
        then error q
        else attempt q (o.privkey_sign privkey body) >>= λ sig.
            if not (length sig == dsa_sig_bytes)
            then error (record q { transitional_signature = none })
            else success (record q { transitional_signature = some sig })

  unfoldable pub client_profile_start_publishing : ClientProfile g → ClientProfile g
  client_profile_start_publishing p = record p { is_publishing = true }

  unfoldable pub client_profile_should_publish : ClientProfile g → Bool
  client_profile_should_publish p = not (p.should_publish == 0) && not p.is_publishing
