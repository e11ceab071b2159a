-- ===== src/Signing/Tests.antt =====
-- Tokens.
use notification_api_spec.Base.{
  String, ◌≡◌, ◌<>◌, inl, inr, refl, arith, false, some, List, [], ◌∷◌, push, blank, trim_space,
  Among, ok, err, plain_error,
}
use notification_api_spec.Signing.{utf8}
use notification_api_spec.Signing.Base64.{Bytes, encode, decode, sextet_char, sextets, char_sextet}
use notification_api_spec.Signing.Base64.RoundTrip.{IsBytes}
use notification_api_spec.Signing.Token.{
  Hashes, Codec, dumps, loads, unsign, signature_of, split_last,
}
use notification_api_spec.Signing.Token.RoundTrip.{IsCoded, loads-dumps}
use notification_api_spec.Signing.Token.Soundness.{unsign_lem}
use notification_api_spec.Signing.Crypto
use notification_api_spec.Signing.Crypto.RoundTrip.{decrypt-dotted}

abbrev hashes : Hashes
hashes = record { sha256 = λ bytes. bytes; hmac_sha256 = λ key message. 1 ∷ 2 ∷ 3 ∷ [] }

three-IsBytes : IsBytes (1 ∷ 2 ∷ 3 ∷ [])
three-IsBytes = (omega arith, (omega arith, (omega arith, tt)))

encoded : encode (1 ∷ 2 ∷ 255 ∷ 4 ∷ []) ≡ "AQL_BA"
unfolding encode sextet_char
encoded = refl

-- Values that are their own encoding, and a compression that gives one byte more.
abbrev codec : Codec Bytes
codec = record {
  marshal = λ v. ok v;
  unmarshal = λ json. ok json;
  compress = λ json. ok (7 ∷ json);
  decompress = λ bytes. ok (1 ∷ 2 ∷ 3 ∷ []);
}

coded : IsCoded hashes codec (1 ∷ 2 ∷ 3 ∷ []) (1 ∷ 2 ∷ 3 ∷ [])
coded = record {
  marshals = refl;
  unmarshals = refl;
  json_bytes = three-IsBytes;
  compresses = (7 ∷ 1 ∷ 2 ∷ 3 ∷ [], refl, (omega arith, three-IsBytes), refl);
}

shown : blank "secret" ≡ false
unfolding trim_space
shown = refl

abbrev secrets : List String
secrets = "new" ∷ "secret" ∷ []

loads-dumps_example :
    (token : String) × (dumps hashes codec 1700000000 (1 ∷ 2 ∷ 3 ∷ []) "secret" "salt" ≡ ok token)
    × (loads hashes codec token secrets "salt" ≡ ok (1 ∷ 2 ∷ 3 ∷ []))
loads-dumps_example =
    loads-dumps hashes codec (1 ∷ 2 ∷ 3 ∷ []) (1 ∷ 2 ∷ 3 ∷ []) "secret" "salt" 1700000000 secrets
      (λ key message. three-IsBytes) coded (inr (inl refl)) shown

accepted : unsign hashes "pay.AQ.AQID" secrets "salt" ≡ ok "pay"
unfolding unsign split_last encode sextet_char decode sextets char_sextet trim_space utf8
accepted = refl

unsign_lem_example :
    (stamp : String) × ((bytes : Bytes) × (decode stamp ≡ some bytes))
    × ((secret : String) × Among secret secrets
        × (blank secret ≡ false)
        × ("pay.AQ.AQID"
            ≡ ("pay" <> push "." stamp)
              <> push "." (signature_of hashes ("pay" <> push "." stamp) secret "salt")))
unsign_lem_example = unsign_lem hashes "pay.AQ.AQID" secrets "salt" "pay" accepted

token_shown : blank "token" ≡ false
unfolding trim_space
token_shown = refl

abbrev old_hashes : Crypto.Hashes
old_hashes = record { sha1 = λ bytes. bytes; hmac_sha1 = λ key message. 1 ∷ 2 ∷ 3 ∷ [] }

decrypt-dotted_example :
    (ciphertext : String) × (Crypto.encrypt old_hashes ("See you" <> push "." " Bye") "secret"
      ≡ ok ciphertext)
    × (Crypto.decrypt old_hashes ciphertext secrets ≡ err (plain_error "decode signature"))
decrypt-dotted_example =
    decrypt-dotted old_hashes "See you" " Bye" "secret" secrets
      (refl, (refl, (refl, (refl, (refl, (refl, (refl, tt))))))) shown
