-- ===== src/Mode/Cbc/Inverse.antt =====
-- Calls on a keyed context: round trip, and the start of a new message.
use native.Mathlib.Nat.{div-add-mod', mul-mod_left, mul-le-mul_left}
use drew.Prelude.{
  ℕ, ◌*◌, ◌/◌, ◌%◌, ◌≤◌, ◌<◌, ◌≡◌, refl, sym, ap, ap₂, ◌∙◌, inl, inr, Option, none, some, true,
  List, length, ◌==◌, Bool-cases, arith,
}
use drew.Util.Endian.{AllBelow, IsBlock}
use drew.Block.Interface.{BlockCipher}
use drew.Mode.Status.{ok}
use drew.Mode.Cbc.{
  Cbc, set_iv, reset, Called, Chain, encrypt_blocks, decrypt_blocks, xor_buffers2, encrypt_with,
  decrypt_with, decrypt_fast_with, through,
}
use drew.Mode.Cbc.Blocks.{blocks-IsUndone}

-- The context between calls: keyed with `e`, and with a block of bytes in `buf`.
pub record IsKeyed (e : BlockCipher) (c : Cbc) : Type 0 where
  pub keyed : c.algo ≡ some e
  pub size : c.blksize ≡ e.block_size
  pub some_bytes : 0 < c.blksize
  pub chained : IsBlock c.blksize c.buf

pub through_keyed :
    (call : BlockCipher → Cbc → List ℕ → Called) (e : BlockCipher) (c : Cbc) (inp : List ℕ)
    → c.algo ≡ some e
    → through call c inp ≡ some (call e c inp)
unfolding through
through_keyed call e c inp k =
    ap (λ (a : Option BlockCipher). elim a [ none ↦ none | some x ↦ some (call x c inp) ]) k

whole_times : (x n : ℕ) → x % n ≡ 0 → x ≡ x / n * n
whole_times x n h = omega (arith, div-add-mod' x n)

times_some : (x n : ℕ) → 0 < n → x ≤ x * n
times_some x n h = let most : x * 1 ≤ x * n = mul-le-mul_left x h in omega arith

-- The branch of whole blocks.
encrypt_whole :
    (e : BlockCipher) (c : Cbc) (inp : List ℕ)
    → length inp % c.blksize ≡ 0
    → (let r = encrypt_blocks xor_buffers2 e c.blksize (length inp) c.buf inp in
        encrypt_with e c inp ≡ record { status = ok; out = r.0; ctx = record c { buf = r.1 } })
unfolding encrypt_with
encrypt_whole e c inp h = let go : (length inp % c.blksize == 0) ≡ true = ground arith in rw go refl

decrypt_whole :
    (e : BlockCipher) (c : Cbc) (inp : List ℕ)
    → length inp % c.blksize ≡ 0
    → (let r =
          decrypt_blocks e c.blksize (length inp) (record { buf = c.buf; buf2 = c.buf2 }) inp in
        decrypt_with e c inp
        ≡ record { status = ok; out = r.0; ctx = record c { buf = r.1.buf; buf2 = r.1.buf2 } })
unfolding decrypt_with decrypt_fast_with
decrypt_whole e c inp h = let go : (length inp % c.blksize == 0) ≡ true = ground arith in rw go refl

-- For contexts keyed with the same cipher and with the same block in `buf`, and for a message of whole
-- blocks of bytes, `cbc_encrypt` and then `cbc_decrypt` of what it has written both return 0, give the
-- message back, keep its length between them, and leave the same block in `buf`.
pub cbc_decrypt-encrypt :
    (e : BlockCipher) (c d : Cbc) (inp : List ℕ)
    → IsKeyed e c
    → IsKeyed e d
    → d.buf ≡ c.buf
    → AllBelow 256 inp
    → length inp % e.block_size ≡ 0
    → (let r = encrypt_with e c inp in
        let s = decrypt_with e d r.out in
        (through encrypt_with c inp ≡ some r)
        × (through decrypt_with d r.out ≡ some s)
        × (r.status ≡ ok)
        × (s.status ≡ ok)
        × (s.out ≡ inp)
        × (length r.out ≡ length inp)
        × (s.ctx.buf ≡ r.ctx.buf))
cbc_decrypt-encrypt e c d inp kc kd same below whole =
    let n = e.block_size in
    let k : ℕ = length inp / n in
    let chain : Chain = record { buf = d.buf; buf2 = d.buf2 } in
    let E = encrypt_blocks xor_buffers2 e n (length inp) d.buf inp in
    let D = decrypt_blocks e n (length E.0) chain E.0 in
    let pos : 0 < n = omega (arith, kc.size, kc.some_bytes) in
    let len : length inp ≡ k * n = whole_times (length inp) n whole in
    let enough : k ≤ k * n = times_some k n pos in
    let start : IsBlock n d.buf = record {
      size = (kd.chained).size ∙ kd.size;
      below = (kd.chained).below;
    } in
    let undone_for = λ (g : ℕ) (h : k ≤ g).
      blocks-IsUndone e n refl pos k (length inp) g chain inp (omega arith) h len start below in
    let size : length E.0 ≡ k * n = (undone_for k (omega arith)).written in
    let undone = undone_for (length E.0) (omega arith) in
    let W : encrypt_with e c inp ≡ record { status = ok; out = E.0; ctx = record c { buf = E.1 } } =
      encrypt_whole e c inp (ap (λ (t : ℕ). length inp % t) (kc.size) ∙ whole)
      ∙ ap₂
          (λ t b. record {
            status = ok;
            out = (encrypt_blocks xor_buffers2 e t (length inp) b inp).0;
            ctx = record c { buf = (encrypt_blocks xor_buffers2 e t (length inp) b inp).1 };
          })
          (kc.size) (sym same) in
    let R : decrypt_with e d E.0
        ≡ record { status = ok; out = D.0; ctx = record d { buf = D.1.buf; buf2 = D.1.buf2 } } =
      decrypt_whole e d E.0 (ap₂ (λ (x y : ℕ). x % y) size (kd.size) ∙ mul-mod_left k n)
      ∙ ap
          (λ t. record {
            status = ok;
            out = (decrypt_blocks e t (length E.0) chain E.0).0;
            ctx = record d {
              buf = (decrypt_blocks e t (length E.0) chain E.0).1.buf;
              buf2 = (decrypt_blocks e t (length E.0) chain E.0).1.buf2;
            };
          })
          (kd.size) in
    let S = ap (λ t. decrypt_with e d t.out) W ∙ R in
    (
      through_keyed encrypt_with e c inp (kc.keyed),
      through_keyed decrypt_with e d _ (kd.keyed),
      ap (λ t. t.status) W,
      ap (λ t. t.status) S,
      ap (λ t. t.out) S ∙ undone.message,
      ap (λ t. length t.out) W ∙ size ∙ sym len,
      ap (λ t. t.ctx.buf) S ∙ undone.chained ∙ sym (ap (λ t. t.ctx.buf) W),
    )

set_iv_lem :
    (iv : List ℕ) (c : Cbc)
    → length iv ≡ c.blksize
    → set_iv iv c ≡ (ok, record c { buf = iv; iv = iv })
unfolding set_iv
set_iv_lem iv c h = let same : (c.blksize == length iv) ≡ true = ground arith in rw same refl

-- A message changes nothing but `buf`.
encrypt-ctx :
    (e : BlockCipher) (c : Cbc) (inp : List ℕ)
    → (encrypt_with e c inp).ctx ≡ record c { buf = (encrypt_with e c inp).ctx.buf }
unfolding encrypt_with
encrypt-ctx e c inp = elim (Bool-cases (length inp % c.blksize == 0)) [
  | inl go ↦ rw go refl
  | inr stop ↦ rw stop refl
]

-- After `cbc_setiv` and a message, whole or not, `cbc_reset` returns 0, and the next message is
-- encrypted as it is right after `cbc_setiv`.
pub cbc_reset_lem :
    (e : BlockCipher) (c : Cbc) (iv first next : List ℕ)
    → length iv ≡ c.blksize
    → (let start = (set_iv iv c).1 in
        let again = reset (encrypt_with e start first).ctx in
        (again.0 ≡ ok) × ((encrypt_with e again.1 next).out ≡ (encrypt_with e start next).out))
unfolding reset
cbc_reset_lem e c iv first next size =
    let start : Cbc = record c { buf = iv; iv = iv } in
    let begun : set_iv iv c ≡ (ok, start) = set_iv_lem iv c size in
    let back : reset (encrypt_with e (set_iv iv c).1 first).ctx ≡ (ok, start) =
      ap (λ t. reset (encrypt_with e t.1 first).ctx) begun
      ∙ ap reset (encrypt-ctx e start first)
      ∙ set_iv_lem iv (record start { buf = (encrypt_with e start first).ctx.buf }) size in
    (ap (λ t. t.0) back, ap (λ t. (encrypt_with e t.1 next).out) (back ∙ sym begun))
