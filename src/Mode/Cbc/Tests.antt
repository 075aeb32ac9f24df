-- ===== src/Mode/Cbc/Tests.antt =====
-- Cipher block chaining over CAST-256 and, for smaller blocks, TEA.
use drew.Prelude.{
  ◌⊎◌, ◌↔◌, ℕ, ◌%◌, ◌<◌, ◌≡◌, refl, sym, none, some, true, List, length, replicate, arith, [],
}
use drew.Block.Interface.{BlockCipher}
use drew.Block.Tea.Inverse as TeaInverse
use drew.Block.Cast6.{set_key}
use drew.Block.Cast6.Inverse.{cipher, cipher-block_size}
use drew.Mode.Status.{ok, failure, err_invalid, err_not_impl, err_not_allowed}
use drew.Mode.Cbc.{
  Cbc, Memory, init, set_block, set_iv, reset, resync, set_data, encrypt_with, decrypt_with,
  encrypt_fast_with, through, final,
}
use drew.Mode.Cbc.Inverse.{IsKeyed, cbc_decrypt-encrypt, cbc_reset_lem}
use drew.Mode.Cbc.Final.{cbc_final_lem}
use drew.Mode.Cbc.Fast.{cbc_stale_table}

abbrev zeros : List ℕ
zeros = replicate 16 0

abbrev cast6 : BlockCipher
cast6 = cipher (set_key zeros)

abbrev tea : BlockCipher
tea = TeaInverse.cipher (record { k0 = 1; k1 = 2; k2 = 3; k3 = 4 })

abbrev iv_16 : List ℕ
iv_16 = replicate 16 7

abbrev context : Cbc
context = record {
  algo = some cast6;
  buf = iv_16;
  buf2 = zeros;
  iv = iv_16;
  blksize = 16;
  fast = true;
}

abbrev message : List ℕ
message = replicate 32 0x61

context-IsKeyed : IsKeyed cast6 context
context-IsKeyed = record {
  keyed = refl;
  size = sym (cipher-block_size (set_key zeros));
  some_bytes = omega arith;
  chained = record { size = refl; below = omega arith };
}

abbrev memory : Memory
memory = λ i n. some (replicate n 0)

null_block : set_block memory none init ≡ (failure err_invalid, init)
unfolding set_block
null_block = refl

unkeyed : through encrypt_with init message ≡ none
unfolding through init
unkeyed = refl

no_resync : resync context ≡ failure err_not_impl
unfolding resync
no_resync = refl

no_data : set_data message context ≡ failure err_not_allowed
unfolding set_data
no_data = refl

cbc_decrypt-encrypt_example :
    (let r = encrypt_with cast6 context message in
      let s = decrypt_with cast6 context r.out in
      (through encrypt_with context message ≡ some r)
      × (through decrypt_with context r.out ≡ some s)
      × (r.status ≡ ok)
      × (s.status ≡ ok)
      × (s.out ≡ message)
      × (length r.out ≡ length message)
      × (s.ctx.buf ≡ r.ctx.buf))
cbc_decrypt-encrypt_example =
    cbc_decrypt-encrypt cast6 context context message context-IsKeyed context-IsKeyed refl
      (omega arith) two_blocks
  where
    two_blocks : length message % cast6.block_size ≡ 0
    two_blocks = rw (cipher-block_size (set_key zeros)) refl

cbc_reset_lem_example :
    (let start = (set_iv iv_16 context).1 in
      let again = reset (encrypt_with cast6 start message).ctx in
      (again.0 ≡ ok)
      × ((encrypt_with cast6 again.1 zeros).out ≡ (encrypt_with cast6 start zeros).out))
cbc_reset_lem_example = cbc_reset_lem cast6 context iv_16 message zeros refl

cbc_stale_table_example :
    (let r = set_block memory (some tea) context in
      (r.0 ≡ ok)
      × (r.1.fast ≡ true)
      × ((encrypt_fast_with tea r.1 zeros).out ≡ (encrypt_fast_with tea r.1 iv_16).out))
cbc_stale_table_example =
    cbc_stale_table tea memory context (replicate tea.block_size 0) (replicate tea.block_size 0)
      (replicate tea.block_size 0) zeros iv_16 refl smaller refl refl refl refl
  where
    smaller : tea.block_size < 16
    smaller =
        omega (arith, TeaInverse.cipher-block_size (record { k0 = 1; k1 = 2; k2 = 3; k3 = 4 }))

abbrev partial : List ℕ
partial = replicate 19 0x61

cbc_final_lem_example :
    (let r = encrypt_with cast6 context partial in
      (final encrypt_with context partial ≡ some (length partial, r.out, r.ctx))
      × ((length r.out ≡ length partial) ↔ (r.status ≡ ok))
      × ((r.status ≡ ok) ↔ (length partial % 16 ≡ 0))
      × ((r.status ≡ ok) ⊎ ((r.out ≡ []) × (r.ctx ≡ context))))
cbc_final_lem_example = cbc_final_lem cast6 context partial context-IsKeyed (omega arith)
