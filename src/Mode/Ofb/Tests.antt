-- ===== src/Mode/Ofb/Tests.antt =====
-- Output feedback over TEA and CAST-256.
use drew.Prelude.{
  ◌-◌, ◌%◌, ℕ, ◌≡◌, refl, sym, none, some, true, false, List, length, replicate, arith,
}
use drew.Block.Interface.{BlockCipher}
use drew.Block.Tea.{Tea}
use drew.Block.Tea.Inverse.{cipher, cipher-block_size}
use drew.Block.Cast6.{set_key}
use drew.Block.Cast6.Inverse as Cast6Inverse
use drew.Util.Memory.{overwrite}
use drew.Util.Keystream.Spec.{outputs, after}
use drew.Mode.Offset.Refine.{cursor}
use drew.Mode.Status.{failure, unsigned, err_invalid, err_more_info, err_not_allowed}
use drew.Mode.Ofb.{
  Ofb, init, set_block, set_iv, resync, set_data, front_of, encrypt, encrypt_with,
  encrypt_fast_with, final,
}
use drew.Mode.Ofb.Refine.{IsKeyed, feed_back, ofb_encrypt_lem}
use drew.Mode.Ofb.Reach.{Reach, here, next, renews, set_up, ofb_answers}
use drew.Mode.Ofb.Fast.{ofb_fast_lem}

abbrev key_4 : Tea
key_4 = record { k0 = 1; k1 = 2; k2 = 3; k3 = 4 }

abbrev tea : BlockCipher
tea = cipher key_4

abbrev message : List ℕ
message = replicate 19 0x61

abbrev iv_8 : List ℕ
iv_8 = replicate 8 7

-- The memory of a context.
abbrev memory : Ofb
memory = record {
  algo = none;
  buf = replicate 32 1;
  iv = replicate 32 2;
  blksize = 0;
  boff = 5;
  chunks = 0;
  fast = false;
}

-- Four bytes of the block are used.
abbrev within : Ofb
within = record memory { algo = some tea; blksize = 8; boff = 4; chunks = 2; fast = true }

abbrev at_start : Ofb
at_start = record memory { algo = none; blksize = 16; boff = 0; chunks = 1; fast = true }

within-IsKeyed : IsKeyed tea within
within-IsKeyed = record {
  keyed = refl;
  size = sym (cipher-block_size key_4);
  array = omega arith;
  stored = omega arith;
  used = omega arith;
}

null_block : set_block none memory ≡ (unsigned err_invalid, memory)
unfolding set_block
null_block = refl

unkeyed : final (init memory) message ≡ none
unfolding final encrypt init
unkeyed = refl

wrong_iv : set_iv message within ≡ (failure err_invalid, within)
unfolding set_iv
wrong_iv = refl

no_resync : resync within ≡ failure err_more_info
unfolding resync
no_resync = refl

no_data : set_data message within ≡ failure err_not_allowed
unfolding set_data
no_data = refl

ofb_encrypt_lem_example :
    (let start = cursor 8 (front_of within) in
      let last = after 8 (feed_back tea) start message in
      encrypt within message
      ≡ some (
        outputs 8 (feed_back tea) start message,
        record within { buf = overwrite within.buf 0 last.mbuf; boff = (8 - last.bufrem) % 8 },
      ))
ofb_encrypt_lem_example = ofb_encrypt_lem tea within message within-IsKeyed

-- After a new IV.
ofb_answers_example :
    (out : List ℕ) × (c' : Ofb) × (final (set_iv iv_8 (set_up tea memory)).1 message
      ≡ some (length message, out, c'))
    × (length out ≡ length message)
    × Reach (set_up tea memory) c'
ofb_answers_example =
    ofb_answers tea memory (set_iv iv_8 (set_up tea memory)).1 message
      (record {
        some_bytes = omega (arith, cipher-block_size key_4);
        array = omega (arith, cipher-block_size key_4);
        stored = omega (arith, cipher-block_size key_4);
      })
      (next here (renews iv_8 (set_iv iv_8 (set_up tea memory)).0 refl))

abbrev cast6 : BlockCipher
cast6 = Cast6Inverse.cipher (set_key (replicate 16 0))

ofb_fast_lem_example :
    encrypt_fast_with cast6 at_start (replicate 32 0x61)
    ≡ encrypt_with cast6 at_start (replicate 32 0x61)
ofb_fast_lem_example =
    ofb_fast_lem cast6 at_start 2 (replicate 32 0x61)
      (Cast6Inverse.cipher-block_size (set_key (replicate 16 0))) refl refl refl (omega arith) refl
