-- ===== src/Crypto.antt =====
-- include/crypto/crypto.hpp and src/crypto/crypto.cpp: the key of a StreetPass connection. What the
-- code calls of Crypto++ is a parameter.
pub mod Derivation
mod Examples
use Prim.Native.String.{String}
use libstreetpass.Prelude.{ℕ, ◌≡◌, List, ◌++◌, length, take, drop, replicate}
use libstreetpass.Prelude.Result.{Result, ok, ◌>>=◌}

pub record CryptoPp : Type 0 where
  -- HMAC<SHA1> with a key, of a message: twenty bytes.
  pub hmac_sha1 : List ℕ → List ℕ → List ℕ
  pub length-hmac_sha1 : (key message : List ℕ) → length (hmac_sha1 key message) ≡ 20
  -- CTR_Mode<AES>::Encryption with a key and an initial counter.
  pub aes_ctr : List ℕ → List ℕ → List ℕ → List ℕ
  pub length-aes_ctr : (key iv message : List ℕ) → length (aes_ctr key iv message) ≡ length message
  -- The contents of a file, or the exception of FileSource.
  pub file_source : String → Result (List ℕ)

-- The two keys that the program keeps.
pub record Keys : Type 0 where
  pub normal_key : List ℕ
  pub cecd_key : List ℕ

-- An ArraySink takes what fits and leaves the rest of the array.
unfoldable pub array_sink : List ℕ → List ℕ → List ℕ
array_sink array bytes = take (length array) bytes ++ drop (length bytes) array

unfoldable pub load_normal_key : Keys → List ℕ → Keys
load_normal_key keys key = record keys { normal_key = array_sink keys.normal_key key }

unfoldable pub load_cecd_key : Keys → List ℕ → Keys
load_cecd_key keys key = record keys { cecd_key = array_sink keys.cecd_key key }

-- `hash_block` after its four insertions.
unfoldable pub hash_block : List ℕ → List ℕ → List ℕ → List ℕ → List ℕ
hash_block master_key master_mac client_key client_mac =
    master_key ++ client_key ++ master_mac ++ client_mac

module _ (c : CryptoPp) where
  unfoldable pub load_normal_key_file : Keys → String → Result Keys
  load_normal_key_file keys filepath = do
    key ← c.file_source filepath
    ok (load_normal_key keys key)

  unfoldable pub load_cecd_key_file : Keys → String → Result Keys
  load_cecd_key_file keys filepath = do key ← c.file_source filepath; ok (load_cecd_key keys key)

  unfoldable pub streetpass_ccmp_key : Keys → List ℕ → List ℕ → List ℕ → List ℕ → List ℕ
  unfolding hash_block
  streetpass_ccmp_key keys master_key master_mac client_key client_mac =
      let block = hash_block master_key master_mac client_key client_mac in
      let ctr = array_sink (replicate 16 0) (c.hmac_sha1 keys.cecd_key block) in
      array_sink (replicate 16 0) (c.aes_ctr keys.normal_key ctr (replicate 16 0))
