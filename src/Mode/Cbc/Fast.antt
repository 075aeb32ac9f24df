-- ===== src/Mode/Cbc/Fast.antt =====
-- The table for blocks of 16 bytes: right for those, and wrong for the smaller blocks of a cipher that
-- the context is given later.
use native.Mathlib.Nat.{div-eq_of_lt}
use drew.Prelude.{
  ℕ, zero, suc, ◌/◌, ◌%◌, ◌<◌, ◌≡◌, refl, sym, ap, ap₂, ◌∙◌, some, true, false, List, [], ◌++◌,
  length, drop, length-drop, leb, ◌==◌, if◌then◌else◌, arith,
}
use drew.Block.Interface.{BlockCipher}
use drew.Util.Keystream.{xor_bytes}
use drew.Mode.Status.{ok}
use drew.Mode.Cbc.{
  Cbc, Memory, set_block, set_block_buf, set_block_buf2, set_block_iv, encrypt_blocks, xor_buffers2,
  xor_aligned2, encrypt_with, encrypt_fast_with, decrypt_with, decrypt_fast_with,
}

same_blocks :
    (e : BlockCipher) (fuel : ℕ) (buf inp : List ℕ)
    → encrypt_blocks xor_aligned2 e 16 fuel buf inp ≡ encrypt_blocks xor_buffers2 e 16 fuel buf inp
unfolding encrypt_blocks xor_aligned2 xor_buffers2
same_blocks e zero buf inp = refl
same_blocks e (suc fuel) buf inp =
    ap
      (λ r.
        if leb 16 (length inp)
        then (e.encrypt (xor_buffers2 buf inp 16) ++ r.0, r.1)
        else ([], buf))
      (same_blocks e fuel (e.encrypt (xor_buffers2 buf inp 16)) (drop 16 inp))

-- For blocks of 16 bytes and a message of whole blocks, `cbc_encryptfast` returns, writes and leaves
-- what `cbc_encrypt` does, and `cbc_decryptfast` what `cbc_decrypt` does.
pub cbc_fast_lem :
    (e : BlockCipher) (c : Cbc) (inp : List ℕ)
    → c.blksize ≡ 16
    → length inp % 16 ≡ 0
    → (encrypt_fast_with e c inp ≡ encrypt_with e c inp)
      × (decrypt_fast_with e c inp ≡ decrypt_with e c inp)
unfolding encrypt_fast_with encrypt_with decrypt_with
cbc_fast_lem e c inp size whole =
    let go : (length inp % c.blksize == 0) ≡ true =
      ground (arith, ap (λ (t : ℕ). length inp % t) size) in
    let blocks : encrypt_blocks xor_aligned2 e c.blksize (length inp) c.buf inp
        ≡ encrypt_blocks xor_buffers2 e c.blksize (length inp) c.buf inp =
      ap (λ t. encrypt_blocks xor_aligned2 e t (length inp) c.buf inp) size
      ∙ same_blocks e (length inp) c.buf inp
      ∙ sym (ap (λ t. encrypt_blocks xor_buffers2 e t (length inp) c.buf inp) size) in
    (
      ap (λ r. record { status = ok; out = r.0; ctx = record c { buf = r.1 } }) blocks ∙ rw go refl,
      rw go refl,
    )

-- A block of less than 16 bytes is not added at all.
nothing_added : (n : ℕ) (out x y : List ℕ) → n < 16 → xor_aligned2 out x n ≡ xor_aligned2 out y n
unfolding xor_aligned2 xor_bytes
nothing_added n out x y h = let pieces : n / 16 ≡ 0 = div-eq_of_lt h in rw pieces refl

ignored :
    (e : BlockCipher) (n fuel : ℕ) (buf xs ys : List ℕ)
    → n < 16
    → length xs ≡ length ys
    → encrypt_blocks xor_aligned2 e n fuel buf xs ≡ encrypt_blocks xor_aligned2 e n fuel buf ys
unfolding encrypt_blocks
ignored e n zero buf xs ys h len = refl
ignored e n (suc fuel) buf xs ys h len =
    ap₂
      (λ (b : List ℕ) (l : ℕ).
        let r = encrypt_blocks xor_aligned2 e n fuel (e.encrypt b) (drop n xs) in
        if leb n l then (e.encrypt b ++ r.0, r.1) else ([], buf))
      (nothing_added n buf xs ys h) len
    ∙ ap
        (λ r.
          if leb n (length ys) then (e.encrypt (xor_aligned2 buf ys n) ++ r.0, r.1) else ([], buf))
        (ignored e n fuel (e.encrypt (xor_aligned2 buf ys n)) (drop n xs) (drop n ys) h
          (omega (arith, length-drop n xs, length-drop n ys)))

-- `cbc_setblock` when there is memory.
set_block_lem :
    (e : BlockCipher) (mem : Memory) (c : Cbc) (buf buf2 iv : List ℕ)
    → mem 0 e.block_size ≡ some buf
    → mem 1 e.block_size ≡ some buf2
    → mem 2 e.block_size ≡ some iv
    → set_block mem (some e) c ≡ (
      ok,
      record {
        algo = some e;
        buf = buf;
        buf2 = buf2;
        iv = iv;
        blksize = e.block_size;
        fast = if e.block_size == 16 then true else c.fast;
      },
    )
unfolding set_block set_block_buf set_block_buf2 set_block_iv
set_block_lem e mem c buf buf2 iv p q r = rw (p, q, r) refl

-- A context with the table for 16 bytes keeps it when `cbc_setblock` succeeds with a cipher of smaller
-- blocks, and through that table any two messages of the same length are encrypted to the same bytes.
pub cbc_stale_table :
    (e : BlockCipher) (mem : Memory) (c : Cbc) (buf buf2 iv xs ys : List ℕ)
    → c.fast ≡ true
    → e.block_size < 16
    → mem 0 e.block_size ≡ some buf
    → mem 1 e.block_size ≡ some buf2
    → mem 2 e.block_size ≡ some iv
    → length xs ≡ length ys
    → (let r = set_block mem (some e) c in
        (r.0 ≡ ok)
        × (r.1.fast ≡ true)
        × ((encrypt_fast_with e r.1 xs).out ≡ (encrypt_fast_with e r.1 ys).out))
unfolding encrypt_fast_with
cbc_stale_table e mem c buf buf2 iv xs ys fast small p q r len =
    let s = set_block_lem e mem c buf buf2 iv p q r in
    let other : (e.block_size == 16) ≡ false = ground arith in
    (
      ap (λ t. t.0) s,
      ap (λ t. t.1.fast) s ∙ ap (λ t. if t then true else c.fast) other ∙ fast,
      ap (λ t. (encrypt_fast_with e t.1 xs).out) s
          ∙ ap (λ l. (encrypt_blocks xor_aligned2 e e.block_size l buf xs).0) len
          ∙ ap (λ t. t.0) (ignored e e.block_size (length ys) buf xs ys small len)
          ∙ sym (ap (λ t. (encrypt_fast_with e t.1 ys).out) s),
    )
