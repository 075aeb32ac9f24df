-- ===== src/Mode/Cbc/Blocks.antt =====
-- Adding blocks, and the loop that decrypts run on what the loop that encrypts has written.
use native.Mathlib.Nat.{add-mul}
use mathlib.Core.Path.{subst}
use mathlib.Core.List.{append-nil}
use drew.Prelude.{
  ℕ, zero, suc, ◌+◌, ◌*◌, ◌≤◌, ◌<◌, ◌≡◌, refl, sym, ap, ap₂, ◌∙◌, true, false, List, [], ◌∷◌, ◌++◌,
  length, take, drop, leb, length-append, length-take, length-drop, take-append-drop, arith,
}
use drew.Util.Endian.{AllBelow, IsBlock}
use drew.Util.Endian.Laws.{
  AllBelow-take, AllBelow-drop, take-append_self, drop-append_self, take-whole,
}
use drew.Util.Keystream.{xor_bytes}
use drew.Util.Keystream.Bytes.{length-xor_bytes, xor_bytes-AllBelow, xor_bytes_cancel}
use drew.Block.Interface.{BlockCipher}
use drew.Mode.Cbc.{xor_buffers2, encrypt_blocks, Chain, decrypt_blocks}

pub empty : (xs : List ℕ) → length xs ≡ 0 → xs ≡ []
empty [] e = refl
empty (x ∷ xs) e = absurd (omega arith)

-- `xor_buffers2` on two blocks.
xor_buffers2_lem :
    (n : ℕ) (out x : List ℕ) → length out ≡ n → xor_buffers2 out x n ≡ xor_bytes out (take n x)
unfolding xor_buffers2
xor_buffers2_lem n out x e =
    let rest : length (drop n out) ≡ 0 = omega (arith, length-drop n out) in
    ap₂ (λ y z. xor_bytes y (take n x) ++ z) (take-whole n out e) (empty (drop n out) rest)
    ∙ append-nil (xor_bytes out (take n x))

module _ (e : BlockCipher) (n : ℕ) (same : n ≡ e.block_size) (pos : 0 < n) where
  -- One block there and back.
  there : List ℕ → List ℕ → List ℕ
  there buf inp = e.encrypt (xor_buffers2 buf inp n)

  length-there : (buf inp : List ℕ) → length (there buf inp) ≡ n
  unfolding there
  length-there buf inp = e.length-encrypt (xor_buffers2 buf inp n) ∙ sym same

  back :
      (buf inp : List ℕ)
      → IsBlock n buf
      → n ≤ length inp
      → AllBelow 256 inp
      → xor_buffers2 (e.decrypt (there buf inp)) buf n ≡ take n inp
  unfolding there
  back buf inp b more below =
      let block : length (take n inp) ≡ n = omega (arith, length-take n inp) in
      let sum = xor_buffers2_lem n buf inp (b.size) in
      let sum_size : length (xor_bytes buf (take n inp)) ≡ n =
        length-xor_bytes buf (take n inp) (b.size ∙ sym block) ∙ block in
      let sum-IsBlock : IsBlock e.block_size (xor_bytes buf (take n inp)) = record {
        size = sum_size ∙ same;
        below = xor_bytes-AllBelow buf (take n inp) (b.below) (AllBelow-take 256 n inp below);
      } in
      ap (λ t. xor_buffers2 (e.decrypt (e.encrypt t)) buf n) sum
      ∙ ap (λ t. xor_buffers2 t buf n) (e.decrypt-encrypt _ sum-IsBlock)
      ∙ xor_buffers2_lem n (xor_bytes buf (take n inp)) buf sum_size
      ∙ ap (xor_bytes (xor_bytes buf (take n inp))) (take-whole n buf (b.size))
      ∙ xor_bytes_cancel buf (take n inp) (b.size ∙ sym block)

  there-IsBlock :
      (buf inp : List ℕ)
      → IsBlock n buf
      → n ≤ length inp
      → AllBelow 256 inp
      → IsBlock n (there buf inp)
  unfolding there
  there-IsBlock buf inp b more below =
      let block : length (take n inp) ≡ n = omega (arith, length-take n inp) in
      let sum = xor_buffers2_lem n buf inp (b.size) in
      let sum-IsBlock : IsBlock e.block_size (xor_bytes buf (take n inp)) = record {
        size = length-xor_bytes buf (take n inp) (b.size ∙ sym block) ∙ block ∙ same;
        below = xor_bytes-AllBelow buf (take n inp) (b.below) (AllBelow-take 256 n inp below);
      } in
      record {
        size = length-there buf inp;
        below =
            subst (λ t. AllBelow 256 (e.encrypt t)) (sym sum)
              ((e.encrypt-IsBlock _ sum-IsBlock).below);
      }

  -- Both loops over `k` blocks, with any fuel that is enough: the length of what is written, the
  -- message again, and the same last block in both.
  pub record IsUndone (k f g : ℕ) (s : Chain) (inp : List ℕ) : Type 0 where
    pub written : length (encrypt_blocks xor_buffers2 e n f s.buf inp).0 ≡ k * n
    pub message : (decrypt_blocks e n g s (encrypt_blocks xor_buffers2 e n f s.buf inp).0).0 ≡ inp
    pub chained :
        (decrypt_blocks e n g s (encrypt_blocks xor_buffers2 e n f s.buf inp).0).1.buf
        ≡ (encrypt_blocks xor_buffers2 e n f s.buf inp).1

  stop_encrypt : (f : ℕ) (buf : List ℕ) → encrypt_blocks xor_buffers2 e n f buf [] ≡ ([], buf)
  unfolding encrypt_blocks
  stop_encrypt zero buf = refl
  stop_encrypt (suc f) buf = let stop : leb n 0 ≡ false = ground arith in rw stop refl

  stop_decrypt : (g : ℕ) (s : Chain) → decrypt_blocks e n g s [] ≡ ([], s)
  unfolding decrypt_blocks
  stop_decrypt zero s = refl
  stop_decrypt (suc g) s = let stop : leb n 0 ≡ false = ground arith in rw stop refl

  step_encrypt :
      (f : ℕ) (buf inp : List ℕ)
      → n ≤ length inp
      → encrypt_blocks xor_buffers2 e n (suc f) buf inp ≡ (
        there buf inp ++ (encrypt_blocks xor_buffers2 e n f (there buf inp) (drop n inp)).0,
        (encrypt_blocks xor_buffers2 e n f (there buf inp) (drop n inp)).1,
      )
  unfolding encrypt_blocks there
  step_encrypt f buf inp h = let go : leb n (length inp) ≡ true = ground arith in rw go refl

  step_decrypt :
      (g : ℕ) (s : Chain) (block out : List ℕ)
      → length block ≡ n
      → (let r = decrypt_blocks e n g (record { buf = block; buf2 = block }) out in
          decrypt_blocks e n (suc g) s (block ++ out)
          ≡ (xor_buffers2 (e.decrypt block) s.buf n ++ r.0, r.1))
  unfolding decrypt_blocks
  step_decrypt g s block out h =
      let go : leb n (length (block ++ out)) ≡ true = ground (arith, length-append block out) in
      rw (go, take-append_self n block out h, drop-append_self n block out h) refl

  pub blocks-IsUndone :
      (k f g : ℕ) (s : Chain) (inp : List ℕ)
      → k ≤ f
      → k ≤ g
      → length inp ≡ k * n
      → IsBlock n s.buf
      → AllBelow 256 inp
      → IsUndone k f g s inp
  blocks-IsUndone zero f g s inp p q len b below =
      let none : inp ≡ [] = empty inp (omega arith) in
      let wrote : encrypt_blocks xor_buffers2 e n f s.buf inp ≡ ([], s.buf) =
        ap (encrypt_blocks xor_buffers2 e n f s.buf) none ∙ stop_encrypt f s.buf in
      let read : decrypt_blocks e n g s (encrypt_blocks xor_buffers2 e n f s.buf inp).0 ≡ ([], s) =
        ap (λ t. decrypt_blocks e n g s t.0) wrote ∙ stop_decrypt g s in
      record {
        written = ap (λ t. length t.0) wrote ∙ (omega arith);
        message = ap (λ t. t.0) read ∙ sym none;
        chained = ap (λ t. t.1.buf) read ∙ sym (ap (λ t. t.1) wrote);
      }
  blocks-IsUndone (suc k) zero g s inp p q len b below = absurd (omega arith)
  blocks-IsUndone (suc k) (suc f) zero s inp p q len b below = absurd (omega arith)
  blocks-IsUndone (suc k) (suc f) (suc g) s inp p q len b below =
      let one : suc k * n ≡ n + k * n = omega (arith, add-mul 1 k n) in
      let more : n ≤ length inp = omega arith in
      let block = there s.buf inp in
      let next : Chain = record { buf = block; buf2 = block } in
      let rest = encrypt_blocks xor_buffers2 e n f block (drop n inp) in
      let undone =
        blocks-IsUndone k f g next (drop n inp) (omega arith) (omega arith)
          (omega (arith, length-drop n inp)) (there-IsBlock s.buf inp b more below)
          (AllBelow-drop 256 n inp below) in
      let wrote = step_encrypt f s.buf inp more in
      let read = step_decrypt g s block rest.0 (length-there s.buf inp) in
      record {
        written =
            ap (λ t. length t.0) wrote
            ∙ length-append block rest.0
            ∙ omega (arith, length-there s.buf inp, undone.written);
        message =
            ap (λ t. (decrypt_blocks e n (suc g) s t.0).0) wrote
            ∙ ap (λ t. t.0) read
            ∙ ap₂ ◌++◌ (back s.buf inp b more below) (undone.message)
            ∙ take-append-drop n inp;
        chained =
            ap (λ t. (decrypt_blocks e n (suc g) s t.0).1.buf) wrote
            ∙ ap (λ t. t.1.buf) read
            ∙ undone.chained
            ∙ sym (ap (λ t. t.1) wrote);
      }
