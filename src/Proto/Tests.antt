-- ===== src/Proto/Tests.antt =====
-- Runs of the signatures, over hashes and an encoding that are easy to compute.
use agent_feed.Prelude.{false, refl, some, true, ◌++◌, ◌↔◌, ◌≡◌}
use agent_feed.Proto.Compatibility.{ProtocolCompatibility, current, with_model_version}
use agent_feed.Proto.Laws.{verify_with_secret_iff}
use agent_feed.Proto.Signing.{
  Hashes, Serialize, Signed, constant_time_eq, fold_differences, for_value, for_value_hmac,
  hex_lower, hmac_signature_digest, sha256_signature_digest, sign, sign_with_secret, verify,
  verify_value, verify_value_hmac, verify_with_secret,
}
use agent_feed.Text.{Str, chars, utf8, utf8_char}

instance abbrev plain_hashes : Hashes
plain_hashes = record { sha256 = λ bytes. bytes; hmac_sha256 = λ key bytes. key ++ bytes }

instance abbrev text_json : Serialize Str
text_json = record { to_vec = λ text. some (utf8 text) }

compute : Unit {0}
unfolding for_value for_value_hmac sha256_signature_digest hmac_signature_digest hex_lower utf8
    utf8_char sign sign_with_secret verify verify_value verify_with_secret verify_value_hmac
    constant_time_eq fold_differences
compute = tt

abbrev digest : Str
digest = sha256_signature_digest (chars "k") (utf8 (chars "v"))

abbrev keyed : Str → Str
keyed secret = hmac_signature_digest (chars "k") secret (utf8 (chars "v"))

abbrev signed : Signed Str
signed = record { value = chars "v"; signature = record { key_id = chars "k"; digest = digest } }

abbrev sealed : Str → Signed Str
sealed secret = record {
  value = chars "v";
  signature = record { key_id = chars "k"; digest = keyed secret };
}

wrong_secret : verify_with_secret (sealed (chars "s")) (chars "t") ≡ some false
unfolding compute
wrong_secret = refl

verify_with_secret_iff_example :
    (verify_with_secret (sealed (chars "s")) (chars "t") ≡ some true)
    ↔ (utf8 (keyed (chars "t")) ≡ utf8 (keyed (chars "s")))
verify_with_secret_iff_example =
    verify_with_secret_iff (sealed (chars "s")) (chars "t") (utf8 (chars "v")) refl

abbrev local_peer : ProtocolCompatibility
local_peer = current (chars "0.1.0")

abbrev newer_peer : ProtocolCompatibility
newer_peer = with_model_version local_peer 5 4
