-- ===== src/Crypto/Examples.antt =====
-- The key derivation at concrete keys, over functions in the place of the ciphers.
use libstreetpass.Prelude.{ℕ, ◌+◌, ◌≡◌, ◌++◌, refl, List, length, take, replicate}
use libstreetpass.Prelude.Result.{throws, message}
use libstreetpass.Crypto.{CryptoPp, Keys, load_normal_key, load_cecd_key, streetpass_ccmp_key}
use libstreetpass.Crypto.Derivation.{streetpass_ccmp_key-loaded}

-- A counter of the bytes, and a cipher that does nothing.
abbrev sample_crypto : CryptoPp
sample_crypto = record {
  hmac_sha1 = λ key text. replicate 20 (length key + length text);
  length-hmac_sha1 = λ key text. refl;
  aes_ctr = λ key iv text. text;
  length-aes_ctr = λ key iv text. refl;
  file_source = λ path. throws (message "no such file");
}

abbrev zeros : Keys
zeros = record { normal_key = replicate 16 0; cecd_key = replicate 17 0 }

abbrev key_8 : List ℕ
key_8 = replicate 8 7

abbrev mac_6 : List ℕ
mac_6 = replicate 6 2

streetpass_ccmp_key-loaded_example :
    streetpass_ccmp_key sample_crypto
      (load_cecd_key (load_normal_key zeros (replicate 16 1)) (replicate 17 2))
      key_8
      mac_6
      key_8
      mac_6
    ≡ sample_crypto.aes_ctr
        (replicate 16 1)
        (take 16 (sample_crypto.hmac_sha1 (replicate 17 2) (key_8 ++ key_8 ++ mac_6 ++ mac_6)))
        (replicate 16 0)
streetpass_ccmp_key-loaded_example =
    streetpass_ccmp_key-loaded sample_crypto zeros (replicate 16 1) (replicate 17 2) key_8 mac_6
      key_8 mac_6 (refl, refl) (refl, refl)
