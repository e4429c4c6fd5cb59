-- ===== src/Crypto/Derivation.antt =====
-- What the key of a connection depends on.
use libstreetpass.Prelude.{
  ℕ, ◌≤◌, ◌≡◌, sym, ap, ◌∙◌, List, [], ◌++◌, append-nil, length, take, drop_none, replicate,
  take-length_append, arith,
}
use libstreetpass.Crypto.{
  CryptoPp, Keys, array_sink, load_normal_key, load_cecd_key, hash_block, streetpass_ccmp_key,
}

array_sink_long :
    (array bytes : List ℕ)
    → length array ≤ length bytes
    → array_sink array bytes ≡ take (length array) bytes
unfolding array_sink
array_sink_long array bytes h =
    ap (λ (xs : List ℕ). take (length array) bytes ++ xs) (drop_none array (length bytes) h)
    ∙ append-nil (take (length array) bytes)

array_sink_whole :
    (array bytes : List ℕ) → length array ≡ length bytes → array_sink array bytes ≡ bytes
array_sink_whole array bytes e =
    array_sink_long array bytes (omega arith)
    ∙ ap (take (length array)) (sym (append-nil bytes))
    ∙ take-length_append (length array) bytes [] e

-- After a normal key of 16 bytes and a StreetPass key of 17 are loaded, in this order, the key of a
-- connection is the encryption of 16 zeros under the one, with the first 16 bytes of the hash under
-- the other as counter: nothing of the keys loaded before is left in it. What is hashed is the key
-- of the master, the key of the client, the address of the master and the address of the client.
pub streetpass_ccmp_key-loaded :
    (c : CryptoPp) (keys : Keys) (nk ck mk mm k m : List ℕ)
    → (length keys.normal_key ≡ 16) × (length nk ≡ 16)
    → (length keys.cecd_key ≡ 17) × (length ck ≡ 17)
    → streetpass_ccmp_key c (load_cecd_key (load_normal_key keys nk) ck) mk mm k m
      ≡ c.aes_ctr nk (take 16 (c.hmac_sha1 ck (mk ++ k ++ mm ++ m))) (replicate 16 0)
unfolding streetpass_ccmp_key hash_block load_cecd_key load_normal_key
streetpass_ccmp_key-loaded c keys nk ck mk mm k m hn hc =
    let en : array_sink keys.normal_key nk ≡ nk =
      array_sink_whole keys.normal_key nk (hn.0 ∙ sym hn.1) in
    let ec : array_sink keys.cecd_key ck ≡ ck =
      array_sink_whole keys.cecd_key ck (hc.0 ∙ sym hc.1) in
    let hash : List ℕ = c.hmac_sha1 ck (mk ++ k ++ mm ++ m) in
    let len = c.length-hmac_sha1 ck (mk ++ k ++ mm ++ m) in
    rw (en, ec, array_sink_long (replicate 16 0) hash (omega (arith, len)))
      (array_sink_whole (replicate 16 0) (c.aes_ctr nk (take 16 hash) (replicate 16 0))
        (sym (c.length-aes_ctr nk (take 16 hash) (replicate 16 0))))
