-- ===== src/Stream/Salsa20/Message.antt =====
-- What Salsa20 makes of a message: the hashes of the input at one block counter after another.
use drew.Prelude.{
  ℕ, zero, suc, ◌+◌, ◌*◌, ◌/◌, ◌%◌, ◌^◌, ◌≤◌, ◌≡◌, refl, ap, ap₂, ◌∙◌, List, [], ◌++◌, length, set,
  arith,
}
use drew.Prelude.Loops.{repeat}
use drew.Util.Endian.{little, copy_out}
use drew.Util.Endian.Arrays.{length-copy_out}
use drew.Util.Keystream.{xor_bytes}
use drew.Util.Keystream.Stream.{stream, copy_and_xor-stream}
use drew.Stream.Salsa20.{
  Keystream, Salsa20, lines, run, add_words, do_hash, fill_buffer, ks_reset, ks_set_key,
  ks_set_nonce, set_key, set_nonce, encrypt,
}
use drew.Stream.Salsa20.Layout.{input, IsInput, set_nonce-IsInput, counted-IsInput}

-- The block at the counter `n`, and `k` blocks from it.
unfoldable pub block : ℕ → List ℕ → List ℕ → ℕ → List ℕ
block rounds key iv n =
    copy_out little 4 (do_hash rounds (input key iv (n % 2 ^ 32) (n / 2 ^ 32 % 2 ^ 32)))

unfoldable pub blocks : ℕ → List ℕ → List ℕ → ℕ → ℕ → List ℕ
blocks rounds key iv zero n = []
blocks rounds key iv (suc k) n = block rounds key iv n ++ blocks rounds key iv k ((n + 1) % 2 ^ 64)

pub length-add_words : (n i : ℕ) (cur st : List ℕ) → length (add_words n i cur st) ≡ n
unfolding add_words
length-add_words zero i cur st = refl
length-add_words (suc n) i cur st = ap suc (length-add_words n (i + 1) cur st)

length-do_hash : (rounds : ℕ) (st : List ℕ) → length (do_hash rounds st) ≡ 16
unfolding do_hash
length-do_hash rounds st = length-add_words 16 0 (repeat rounds (run lines) st) st

-- Every call of `FillBuffer` gives 64 bytes.
pub fill_buffer_full : (k : Keystream) → length (fill_buffer k).0 ≡ 64
unfolding fill_buffer
fill_buffer_full k =
    length-copy_out little 4 _
    ∙ ap (λ (t : ℕ). t * 4)
        (length-do_hash k.nrounds
          (set (set k.state 8 (k.ctr % 2 ^ 32)) 9 (k.ctr / 2 ^ 32 % 2 ^ 32)))

-- The buffers of a keystream that has been given a key and a nonce.
stream_lem :
    (key iv : List ℕ) (n : ℕ) (k : Keystream)
    → IsInput key iv k
    → stream 64 fill_buffer n k ≡ blocks k.nrounds key iv n k.ctr
unfolding stream blocks block fill_buffer
stream_lem key iv zero k h = refl
stream_lem key iv (suc n) k h =
    ap₂ (λ x y. copy_out little 4 (do_hash k.nrounds x) ++ y)
      (h (k.ctr % 2 ^ 32) (k.ctr / 2 ^ 32 % 2 ^ 32))
      (stream_lem key iv n (fill_buffer k).1
        (counted-IsInput key iv k (k.ctr % 2 ^ 32) (k.ctr / 2 ^ 32 % 2 ^ 32) h))

-- After `SetKey` and `SetNonce` with a nonce of 8 bytes, in an object with any past, a message of at most
-- `n` blocks becomes the message added to the hashes of the input of the Salsa20 specification for that key
-- and nonce at the block counters from 0.
pub salsa20_encrypt_lem :
    (c : Salsa20) (key iv msg : List ℕ) (n : ℕ)
    → length c.buf ≡ 64
    → length c.ks.state ≡ 16
    → length iv ≡ 8
    → length msg ≤ n * 64
    → (encrypt (set_nonce iv (set_key key c)) msg).0
      ≡ xor_bytes (blocks c.ks.nrounds key iv n 0) msg
unfolding encrypt set_nonce set_key ks_set_nonce ks_set_key ks_reset
salsa20_encrypt_lem c key iv msg n whole words size short =
    let k : Keystream = ks_set_nonce iv (ks_set_key key (ks_reset c.ks)) in
    copy_and_xor-stream 64 fill_buffer (omega arith) fill_buffer_full n c.buf k msg whole short
    ∙ ap (λ t. xor_bytes t msg) (stream_lem key iv n k (set_nonce-IsInput key iv c.ks words size))
