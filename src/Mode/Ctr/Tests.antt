-- ===== src/Mode/Ctr/Tests.antt =====
-- Counter mode over TEA, at a context in the middle of a block.
use drew.Prelude.{ℕ, ◌+◌, ◌%◌, ◌^◌, ◌≡◌, refl, sym, none, some, List, [], ◌∷◌, ◌++◌, drop, arith}
use drew.Util.Endian.{IsBlock, big, load}
use drew.Util.Keystream.{xor_bytes}
use drew.Util.Keystream.Spec.{outputs, after}
use drew.Block.Interface.{BlockCipher}
use drew.Block.Tea.{Tea}
use drew.Block.Tea.Inverse.{cipher, cipher-block_size}
use drew.Mode.Status.{ok, failure, unsigned, err_invalid, err_not_impl, err_not_allowed}
use drew.Mode.Ctr.{
  Ctr, init, set_block, set_iv, encrypt, encrypt_final, increment_counter, ripple, resync, set_data,
}
use drew.Mode.Ctr.Counter.{increment_counter_value}
use drew.Mode.Ctr.Refine.{IsKeyed, view, unview}
use drew.Mode.Ctr.Keystream.{count_on, ctr_encrypt_lem}
use drew.Mode.Ctr.Pieces.{
  in_two_calls, start_again, written, ctr_encrypt-append, reset_lem, set_iv_within_block,
}

abbrev key_4 : Tea
key_4 = record { k0 = 1; k1 = 2; k2 = 3; k3 = 4 }

abbrev tea : BlockCipher
tea = cipher key_4

abbrev iv_8 : List ℕ
iv_8 = 0xf0 ∷ 0xf1 ∷ 0xf2 ∷ 0xf3 ∷ 0xf4 ∷ 0xf5 ∷ 0xff ∷ 0xff ∷ []

abbrev message : List ℕ
message = 0x6b ∷ 0xc1 ∷ 0xbe ∷ []

-- Three bytes of the buffer are used.
abbrev context : Ctr
context = record { algo = some tea; counter = iv_8; buf = iv_8; iv = iv_8; blksize = 8; boff = 3 }

context-IsKeyed : IsKeyed tea context
context-IsKeyed = record {
  keyed = refl;
  size = sym (cipher-block_size key_4);
  whole = refl;
  used = omega arith;
}

iv_8-IsBlock : IsBlock 8 iv_8
iv_8-IsBlock = record { size = refl; below = omega arith }

-- The carry runs over two bytes.
counter_carries : increment_counter iv_8 ≡ 0xf0 ∷ 0xf1 ∷ 0xf2 ∷ 0xf3 ∷ 0xf4 ∷ 0xf6 ∷ 0 ∷ 0 ∷ []
unfolding increment_counter ripple
counter_carries = refl

null_block : set_block none init ≡ (unsigned err_invalid, init)
unfolding set_block
null_block = refl

unkeyed : encrypt_final init message ≡ none
unfolding encrypt_final encrypt init
unkeyed = refl

wrong_iv : set_iv message context ≡ (failure err_invalid, context)
unfolding set_iv
wrong_iv = refl

no_resync : resync context ≡ failure err_not_impl
unfolding resync
no_resync = refl

no_data : set_data message context ≡ failure err_not_allowed
unfolding set_data
no_data = refl

increment_counter_value_example :
    load big 8 (increment_counter iv_8) ≡ (load big 8 iv_8 + 1) % 256 ^ 8
increment_counter_value_example = increment_counter_value 8 iv_8 iv_8-IsBlock

ctr_encrypt_lem_example :
    encrypt context message
    ≡ some (
      outputs 8 (count_on tea 8) (view context) message,
      unview context (after 8 (count_on tea 8) (view context) message),
    )
ctr_encrypt_lem_example = ctr_encrypt_lem tea context message context-IsKeyed iv_8-IsBlock

ctr_encrypt-append_example : in_two_calls context message iv_8 ≡ encrypt context (message ++ iv_8)
ctr_encrypt-append_example = ctr_encrypt-append tea context message iv_8 context-IsKeyed

reset_lem_example :
    start_again context iv_8 message
    ≡ some (ok, record context { counter = iv_8; buf = iv_8; iv = iv_8; boff = 0 })
reset_lem_example = reset_lem tea context iv_8 message context-IsKeyed refl

set_iv_within_block_example :
    written (set_iv iv_8 context).1 message ≡ some (xor_bytes (drop 3 iv_8) message)
set_iv_within_block_example =
    set_iv_within_block tea context iv_8 message context-IsKeyed refl (omega arith) (omega arith)
