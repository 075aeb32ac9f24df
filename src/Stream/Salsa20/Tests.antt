-- ===== src/Stream/Salsa20/Tests.antt =====
-- The first ECRYPT vector for a key of 32 bytes, and the theorem at it.
use drew.Prelude.{ℕ, ◌≡◌, refl, List, [], ◌∷◌, replicate, arith}
use drew.Prelude.Loops.{repeat}
use drew.Util.Rotate.{rotate_left, add_word}
use drew.Util.Endian.{copy_in, copy_out, load, store, host_load, host_store}
use drew.Util.Memory.{overwrite}
use drew.Util.Keystream.{xor_bytes, whole_buffers, last_buffer, copy_rest, copy_and_xor}
use drew.Stream.Salsa20.{
  Salsa20, run, add_words, do_hash, fill_buffer, ks_reset, ks_set_key, ks_set_nonce, set_key,
  set_nonce, encrypt, encrypt_fast,
}
use drew.Stream.Salsa20.Fast.{salsa20_fast_lem}
use drew.Stream.Salsa20.Message.{blocks, salsa20_encrypt_lem}

abbrev object : Salsa20
object = record {
  ks = record { keysz = 0; nrounds = 10; state = replicate 16 0xdeadbeef; ctr = 7 };
  buf = replicate 64 0;
  nbytes = 5;
}

abbrev key_80 : List ℕ
key_80 = 0x80 ∷ replicate 31 0

abbrev zeros : List ℕ
zeros = replicate 12 0

first_bytes :
    (encrypt (set_nonce (replicate 8 0) (set_key key_80 object)) zeros).0
    ≡ 0xe3 ∷ 0xbe ∷ 0x8f ∷ 0xdd ∷ 0x8b ∷ 0xec ∷ 0xa2 ∷ 0xe3 ∷ 0xea ∷ 0x8e ∷ 0xf9 ∷ 0x47 ∷ []
unfolding run add_words do_hash fill_buffer ks_reset ks_set_key ks_set_nonce set_key set_nonce
    encrypt repeat rotate_left add_word copy_in copy_out load store host_load host_store overwrite
    xor_bytes whole_buffers last_buffer copy_rest copy_and_xor
first_bytes = refl

salsa20_encrypt_lem_example :
    (encrypt (set_nonce (replicate 8 0) (set_key key_80 object)) zeros).0
    ≡ xor_bytes (blocks 10 key_80 (replicate 8 0) 1 0) zeros
salsa20_encrypt_lem_example =
    salsa20_encrypt_lem object key_80 (replicate 8 0) zeros 1 refl refl refl (omega arith)

abbrev block_64 : List ℕ
block_64 = replicate 64 0x61

salsa20_fast_lem_example :
    encrypt_fast (set_nonce (replicate 8 0) (set_key key_80 object)) 64 block_64 block_64
    ≡ encrypt (set_nonce (replicate 8 0) (set_key key_80 object)) block_64
unfolding set_nonce set_key
salsa20_fast_lem_example =
    salsa20_fast_lem (set_nonce (replicate 8 0) (set_key key_80 object)) 1 block_64 block_64 refl
      refl refl
