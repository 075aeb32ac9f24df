-- ===== src/Mode/Cfb/Tests.antt =====
-- Cipher feedback over TEA, in segments of 8 bytes.
use drew.Util.Keystream.{xor_bytes}
use drew.Prelude.{
  take, drop, ℕ, ◌≡◌, ◌≢◌, refl, sym, none, some, true, List, [], ◌∷◌, ◌++◌, length, replicate,
  arith,
}
use drew.Util.Memory.{overwrite}
use drew.Block.Interface.{BlockCipher}
use drew.Block.Tea.{Tea}
use drew.Block.Tea.Inverse.{cipher, cipher-block_size}
use drew.Mode.Status.{failure, unsigned, err_invalid, err_not_impl, err_not_allowed, err_no_memory}
use drew.Mode.Cfb.{
  Cfb, init, set_block, set_iv, reset, resync, set_data, encrypt_with, decrypt_with, through,
}
use drew.Mode.Cfb.Fast.{encrypt_fast_with, cfb_fast_differs}
use drew.Mode.Cfb.Inverse.{IsKeyed, cfb_decrypt-encrypt, cfb_decrypt_rewinds}

abbrev key_4 : Tea
key_4 = record { k0 = 1; k1 = 2; k2 = 3; k3 = 4 }

abbrev tea : BlockCipher
tea = cipher key_4

abbrev iv_8 : List ℕ
iv_8 = 0xf0 ∷ 0xf1 ∷ 0xf2 ∷ 0xf3 ∷ 0xf4 ∷ 0xf5 ∷ 0xff ∷ 0xff ∷ []

abbrev context : Cfb
context = record {
  feedback = 8;
  algo = some tea;
  buf = replicate 32 1;
  prev = iv_8 ++ replicate 24 2;
  iv = iv_8;
  blksize = 8;
  boff = 0;
  chunks = 2;
  fast = true;
}

-- Four bytes of the segment are used.
abbrev within : Cfb
within = record context { boff = 4 }

abbrev message : List ℕ
message = replicate 19 0x61

context-IsKeyed : IsKeyed tea context
context-IsKeyed = record {
  keyed = refl;
  size = sym (cipher-block_size key_4);
  some_bytes = omega arith;
  segment = omega arith;
  array = omega arith;
}

null_block : set_block (some iv_8) none context ≡ (unsigned err_invalid, context)
unfolding set_block
null_block = refl

no_memory : (set_block none (some tea) context).0 ≡ failure err_no_memory
unfolding set_block
no_memory = refl

unkeyed : through encrypt_with (init (some 8) context) message ≡ none
unfolding through init
unkeyed = refl

-- `cfb_reset` takes the IV again.
again : (reset context).1.prev ≡ iv_8 ++ replicate 24 2
unfolding reset set_iv overwrite
again = refl

wrong_iv : set_iv message context ≡ (failure err_invalid, context)
unfolding set_iv
wrong_iv = refl

no_resync : resync context ≡ failure err_not_impl
unfolding resync
no_resync = refl

no_data : set_data message context ≡ failure err_not_allowed
unfolding set_data
no_data = refl

cfb_decrypt-encrypt_example :
    (let r = encrypt_with tea context message in
      let s = decrypt_with tea context r.0 in
      (through encrypt_with context message ≡ some r)
      × (through decrypt_with context r.0 ≡ some s)
      × (s.0 ≡ message)
      × (length r.0 ≡ length message)
      × (s.1.prev ≡ r.1.prev)
      × (s.1.boff ≡ r.1.boff))
cfb_decrypt-encrypt_example =
    cfb_decrypt-encrypt tea context context message context-IsKeyed context-IsKeyed refl refl refl
      refl

cfb_decrypt_rewinds_example :
    ((encrypt_with tea within (5 ∷ 6 ∷ [])).1.boff ≡ 6)
    × ((decrypt_with tea within (7 ∷ 8 ∷ [])).1.boff ≢ 6)
cfb_decrypt_rewinds_example =
    cfb_decrypt_rewinds tea within within (5 ∷ 6 ∷ []) (7 ∷ 8 ∷ []) (omega arith) refl refl
      (omega arith) refl (omega arith) (omega arith)

abbrev two_blocks : List ℕ
two_blocks = replicate 16 0x61

cfb_fast_differs_example :
    (let out = (encrypt_with tea context two_blocks).0 in
      (drop 8 out ≡ xor_bytes (tea.encrypt (take 8 out)) (drop 8 two_blocks))
      × (drop 8 (encrypt_fast_with tea context two_blocks).0
          ≡ xor_bytes (tea.encrypt (take 8 (drop 8 (context.prev)))) (drop 8 two_blocks)))
cfb_fast_differs_example =
    cfb_fast_differs tea context two_blocks refl (cipher-block_size key_4) refl refl refl refl
