-- ===== src/Stream/ChaCha/Fast.antt =====
-- `EncryptFast` of ChaCha beside `Encrypt`.
use drew.Prelude.{ℕ, ◌*◌, ◌≡◌, refl, sym, ap, ◌∙◌, List, length, arith}
use drew.Util.Keystream.{Cursor, Progress, copy_and_xor}
use drew.Util.Keystream.Within.{at}
use drew.Util.Keystream.Aligned.{copy_and_xor_aligned, copy_and_xor_aligned_lem}
use drew.Stream.ChaCha.{Keystream, ChaCha, fill_buffer, fill_buffer_aligned, encrypt, encrypt_fast}
use drew.Stream.ChaCha.Message.{fill_buffer_full}

-- On a little-endian host the hash is the same bytes, made in place or copied.
fill_buffer_same : (k : Keystream) → fill_buffer_aligned k ≡ fill_buffer k
unfolding fill_buffer_aligned fill_buffer
fill_buffer_same k = refl

-- In an object with no byte of a block unused, for a message of whole blocks and an array as long to write
-- to: `EncryptFast` writes what `Encrypt` writes, and leaves the object that it leaves.
pub chacha_fast_lem :
    (c : ChaCha) (k : ℕ) (out msg : List ℕ)
    → c.nbytes ≡ 0
    → length msg ≡ k * 64
    → length out ≡ length msg
    → encrypt_fast c (length msg) out msg ≡ encrypt c msg
unfolding encrypt encrypt_fast
chacha_fast_lem c k out msg start whole room =
    let made : List ℕ × Cursor Keystream → List ℕ × ChaCha =
      λ r. (r.0, record c { ks = r.1.obj; buf = r.1.mbuf; nbytes = r.1.bufrem }) in
    let p : Progress Keystream =
      copy_and_xor_aligned 64 fill_buffer_aligned (length msg) out c.buf c.ks msg in
    sym (
      ap (λ m. made (copy_and_xor 64 fill_buffer (at c.buf m c.ks) msg)) start
      ∙ ap made (
          copy_and_xor_aligned_lem 64 fill_buffer fill_buffer_aligned (omega arith) refl
            fill_buffer_same fill_buffer_full k c.buf c.ks out msg whole room)
      ∙ ap (λ m. made (p.out, at p.mbuf m p.obj)) (sym start))
