-- ===== src/Stream/ChaCha/Tests.antt =====
-- The source's vector for a key of 16 bytes, and the theorem at it.
use drew.Prelude.{ℕ, ◌≡◌, refl, inl, List, [], ◌∷◌, replicate, arith}
use drew.Prelude.Loops.{repeat}
use drew.Util.Rotate.{rotate_left, add_word}
use drew.Util.Endian.{copy_in, copy_out, load, store, host_load, host_store}
use drew.Util.Memory.{overwrite}
use drew.Util.Keystream.{xor_bytes, whole_buffers, last_buffer, copy_rest, copy_and_xor}
use drew.Stream.Salsa20.{add_words}
use drew.Stream.ChaCha.{
  ChaCha, half_round, quarter_round, double_round, do_hash, write_counter, fill_buffer, ks_reset,
  ks_set_key, ks_set_nonce, set_key, set_nonce, encrypt,
}
use drew.Stream.ChaCha.Message.{blocks, chacha_encrypt_lem}

abbrev object : ChaCha
object = record {
  ks = record { keysz = 0; noncesz = 0; nrounds = 4; state = replicate 16 0xdeadbeef; ctr = 7 };
  buf = replicate 64 0;
  nbytes = 5;
}

abbrev key_80 : List ℕ
key_80 = 0x80 ∷ replicate 15 0

abbrev zeros : List ℕ
zeros = replicate 12 0

first_bytes :
    (encrypt (set_nonce (replicate 8 0) (set_key key_80 object)) zeros).0
    ≡ 0xbe ∷ 0xb1 ∷ 0xe8 ∷ 0x1e ∷ 0x0f ∷ 0x74 ∷ 0x7e ∷ 0x43 ∷ 0xee ∷ 0x51 ∷ 0x92 ∷ 0x2b ∷ []
unfolding half_round quarter_round double_round add_words do_hash write_counter fill_buffer ks_reset
    ks_set_key ks_set_nonce set_key set_nonce encrypt repeat rotate_left add_word copy_in copy_out
    load store host_load host_store overwrite xor_bytes whole_buffers last_buffer copy_rest
    copy_and_xor
first_bytes = refl

chacha_encrypt_lem_example :
    (encrypt (set_nonce (replicate 8 0) (set_key key_80 object)) zeros).0
    ≡ xor_bytes (blocks 4 key_80 (replicate 8 0) 1 0) zeros
chacha_encrypt_lem_example =
    chacha_encrypt_lem object key_80 (replicate 8 0) zeros 1 refl refl (inl refl) (inl refl)
      (omega arith)
