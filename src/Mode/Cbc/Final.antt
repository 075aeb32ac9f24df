-- ===== src/Mode/Cbc/Final.antt =====
-- What `cbc_encryptfinal` returns, which drops the result of `cbc_encrypt`.
use native.Mathlib.Nat.{zero-mod}
use drew.Prelude.{
  ℕ, ◌%◌, ◌≡◌, ◌≢◌, ◌⊎◌, ◌↔◌, refl, sym, ap, ◌∙◌, inl, inr, none, some, false, List, [], length,
  ◌==◌, Bool-cases, arith,
}
use drew.Util.Endian.{AllBelow}
use drew.Block.Interface.{BlockCipher}
use drew.Mode.Status.{ok, failure, err_invalid}
use drew.Mode.Cbc.{Cbc, encrypt_with, final}
use drew.Mode.Cbc.Inverse.{IsKeyed, through_keyed, cbc_decrypt-encrypt}

-- `cbc_encrypt` returns 0 exactly for whole blocks, and then writes as many bytes as it reads.
encrypt_ok :
    (e : BlockCipher) (c : Cbc) (inp : List ℕ)
    → IsKeyed e c
    → AllBelow 256 inp
    → length inp % c.blksize ≡ 0
    → ((encrypt_with e c inp).status ≡ ok) × (length (encrypt_with e c inp).out ≡ length inp)
encrypt_ok e c inp k below whole =
    let same = ap (λ (t : ℕ). length inp % t) (sym (k.size)) ∙ whole in
    let (read, undone, first, second, back, size, chained) =
      cbc_decrypt-encrypt e c c inp k k refl below same in
    (first, size)

-- A message that is not of whole blocks is refused.
encrypt_refused :
    (e : BlockCipher) (c : Cbc) (inp : List ℕ)
    → length inp % c.blksize ≢ 0
    → encrypt_with e c inp ≡ record { status = failure err_invalid; out = []; ctx = c }
unfolding encrypt_with
encrypt_refused e c inp part =
    let stop : (length inp % c.blksize == 0) ≡ false = ground arith in rw stop refl

-- What `cbc_encryptfinal` returns and what it has done, by whether the message has whole blocks.
final_cases :
    (e : BlockCipher) (c : Cbc) (inp : List ℕ)
    → IsKeyed e c
    → AllBelow 256 inp
    → (let r = encrypt_with e c inp in
        ((length inp % c.blksize ≡ 0) × (r.status ≡ ok) × (length r.out ≡ length inp))
        ⊎ ((length inp % c.blksize ≢ 0)
            × (r ≡ record { status = failure err_invalid; out = []; ctx = c })))
final_cases e c inp k below = elim (Bool-cases (length inp % c.blksize == 0)) [
  | inl go ↦
      let whole : length inp % c.blksize ≡ 0 = ground arith in
      let (done, size) = encrypt_ok e c inp k below whole in inl (whole, done, size)
  | inr stop ↦
      let part : length inp % c.blksize ≢ 0 = ground arith in
      inr (part, encrypt_refused e c inp part)
]

-- In a context keyed with `e` and with a block of bytes in `buf`, and for any message of bytes, `cbc_encryptfinal` returns the length of the
-- message. That is the number of bytes written exactly if `cbc_encrypt`, whose result is dropped, has
-- returned 0, and it does so exactly for whole blocks; else nothing is written, and the context stays.
pub cbc_final_lem :
    (e : BlockCipher) (c : Cbc) (inp : List ℕ)
    → IsKeyed e c
    → AllBelow 256 inp
    → (let r = encrypt_with e c inp in
        (final encrypt_with c inp ≡ some (length inp, r.out, r.ctx))
        × ((length r.out ≡ length inp) ↔ (r.status ≡ ok))
        × ((r.status ≡ ok) ↔ (length inp % c.blksize ≡ 0))
        × ((r.status ≡ ok) ⊎ ((r.out ≡ []) × (r.ctx ≡ c))))
unfolding final
cbc_final_lem e c inp k below =
    let called : final encrypt_with c inp
        ≡ some (length inp, (encrypt_with e c inp).out, (encrypt_with e c inp).ctx) =
      ap (λ r. elim r [ none ↦ none | some x ↦ some (length inp, x.out, x.ctx) ])
        (through_keyed encrypt_with e c inp (k.keyed)) in
    elim (final_cases e c inp k below) [
      | inl (whole, done, size) ↦
          (called, ((λ h. done), (λ h. size)), ((λ h. whole), (λ h. done)), inl done)
      | inr (part, refused) ↦
          let no_bytes : length (encrypt_with e c inp).out ≡ 0 = ap (λ r. length r.out) refused in
          let failed : (encrypt_with e c inp).status ≡ failure err_invalid =
            ap (λ r. r.status) refused in
          let zero_left = zero-mod c.blksize in
          (
            called,
            (
              (λ h. absurd (part (ap (λ (t : ℕ). t % c.blksize) (sym h ∙ no_bytes) ∙ zero_left))),
              (λ h. let never : failure err_invalid ≡ ok = sym failed ∙ h in cc),
            ),
            (
              (λ h. let never : failure err_invalid ≡ ok = sym failed ∙ h in cc),
              (λ h. absurd (part h)),
            ),
            inr (ap (λ r. r.out) refused, ap (λ r. r.ctx) refused),
          )
    ]
