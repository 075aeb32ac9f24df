-- ===== src/Stream/ChaCha.antt =====
-- impl/stream/chacha/chacha.cc and chacha.hh: ChaCha, with the portable keystream.
pub mod Layout
pub mod Message
pub mod Fast
mod Tests
use drew.Prelude.{ℕ, ◌+◌, ◌/◌, ◌%◌, ◌^◌, List, bit_xor, length, get_or, set, ◌==◌, if◌then◌else◌}
use drew.Prelude.Loops.{repeat}
use drew.Util.Rotate.{rotate_left, add_word}
use drew.Util.Endian.{little, copy_in, copy_out}
use drew.Util.Memory.{overwrite}
use drew.Util.Keystream.{Cursor, copy_and_xor}
use drew.Util.Keystream.Aligned.{copy_and_xor_aligned}
use drew.Stream.Salsa20.{add_words}

-- `ChaChaKeystream`; `state` is the array of 16 words.
pub record Keystream : Type 0 where
  pub keysz : ℕ
  pub noncesz : ℕ
  pub nrounds : ℕ
  pub state : List ℕ
  pub ctr : ℕ

-- `ChaCha`
pub record ChaCha : Type 0 where
  pub ks : Keystream
  pub buf : List ℕ
  pub nbytes : ℕ

-- Half a `QuarterRound`, with its two distances: `a += b; d = RotateLeft(a ^ d, s); c += d;
-- b = RotateLeft(b ^ c, t);`
pub half_round : ℕ → ℕ → ℕ → ℕ → ℕ → ℕ → List ℕ → List ℕ
half_round s t a b c d cur =
    let cur = set cur a (add_word 32 (get_or cur a 0) (get_or cur b 0)) in
    let cur = set cur d (rotate_left 32 (bit_xor (get_or cur a 0) (get_or cur d 0)) s) in
    let cur = set cur c (add_word 32 (get_or cur c 0) (get_or cur d 0)) in
    set cur b (rotate_left 32 (bit_xor (get_or cur b 0) (get_or cur c 0)) t)

pub quarter_round : ℕ → ℕ → ℕ → ℕ → List ℕ → List ℕ
unfolding half_round
quarter_round a b c d cur = half_round 8 7 a b c d (half_round 16 12 a b c d cur)

-- The body of the loop of `DoHash`: the columns and then the diagonals.
pub double_round : List ℕ → List ℕ
unfolding quarter_round
double_round cur =
    let cur = quarter_round 0 4 8 12 cur in
    let cur = quarter_round 1 5 9 13 cur in
    let cur = quarter_round 2 6 10 14 cur in
    let cur = quarter_round 3 7 11 15 cur in
    let cur = quarter_round 0 5 10 15 cur in
    let cur = quarter_round 1 6 11 12 cur in
    let cur = quarter_round 2 7 8 13 cur in quarter_round 3 4 9 14 cur

-- `DoHash`
pub do_hash : ℕ → List ℕ → List ℕ
unfolding double_round
do_hash nrounds st = add_words 16 0 (repeat nrounds double_round st) st

-- The words of the counter in the array: for a nonce of 8 bytes it has two, and else one.
pub write_counter : ℕ → List ℕ → ℕ → ℕ → List ℕ
write_counter noncesz st lo hi = let st = set st 12 lo in if noncesz == 8 then set st 13 hi else st

-- `FillBuffer`
pub fill_buffer : Keystream → List ℕ × Keystream
unfolding write_counter do_hash
fill_buffer k =
    let st = write_counter k.noncesz k.state (k.ctr % 2 ^ 32) (k.ctr / 2 ^ 32 % 2 ^ 32) in
    (copy_out little 4 (do_hash k.nrounds st), record k { state = st; ctr = (k.ctr + 1) % 2 ^ 64 })

-- `FillBufferAligned` on a host of the order of `E`: the hash is made in the memory of the buffer.
pub fill_buffer_aligned : Keystream → List ℕ × Keystream
unfolding write_counter do_hash
fill_buffer_aligned k =
    let st = write_counter k.noncesz k.state (k.ctr % 2 ^ 32) (k.ctr / 2 ^ 32 % 2 ^ 32) in
    let words = do_hash k.nrounds st in
    (copy_out little 4 words, record k { state = st; ctr = (k.ctr + 1) % 2 ^ 64 })

-- The operations of `ChaChaKeystream`.
pub ks_reset : Keystream → Keystream
ks_reset k = record k { ctr = 0 }

ks_set_rounds : ℕ → Keystream → Keystream
ks_set_rounds rounds k = record k { nrounds = rounds }

pub ks_set_key : List ℕ → Keystream → Keystream
ks_set_key key k =
    let sz = length key in
    let st = overwrite k.state 4 (copy_in little 4 (sz / 4) key) in
    record k {
      keysz = sz;
      state = if sz == 16 then overwrite st 8 (copy_in little 4 4 key) else st;
    }

pub ks_set_nonce : List ℕ → Keystream → Keystream
ks_set_nonce iv k =
    let sz = length iv in
    let st = overwrite k.state (if sz == 12 then 13 else 14) (copy_in little 4 (sz / 4) iv) in
    let short = k.keysz == 16 in
    let st = set (set st 0 0x61707865) 1 (if short then 0x3120646e else 0x3320646e) in
    record k {
      noncesz = sz;
      state = set (set st 2 (if short then 0x79622d36 else 0x79622d32)) 3 0x6b206574;
    }

-- The operations of `ChaCha`.
reset : ChaCha → ChaCha
unfolding ks_reset
reset c = record c { ks = ks_reset c.ks; nbytes = 0 }

pub set_key : List ℕ → ChaCha → ChaCha
unfolding ks_reset ks_set_key
set_key key c = record c { ks = ks_set_key key (ks_reset c.ks); nbytes = 0 }

pub set_nonce : List ℕ → ChaCha → ChaCha
unfolding ks_set_nonce
set_nonce iv c = record c { ks = ks_set_nonce iv c.ks }

-- `Encrypt`, which is also `Decrypt`.
pub encrypt : ChaCha → List ℕ → List ℕ × ChaCha
unfolding fill_buffer
encrypt c inp =
    let (out, s) =
      copy_and_xor 64 fill_buffer (record { mbuf = c.buf; bufrem = c.nbytes; obj = c.ks }) inp in
    (out, record c { ks = s.obj; buf = s.mbuf; nbytes = s.bufrem })

-- `EncryptFast`, on `len` bytes of two arrays; `m_nbytes` stays.
pub encrypt_fast : ChaCha → ℕ → List ℕ → List ℕ → List ℕ × ChaCha
unfolding fill_buffer_aligned
encrypt_fast c len out inp =
    let p = copy_and_xor_aligned 64 fill_buffer_aligned len out c.buf c.ks inp in
    (p.out, record c { ks = p.obj; buf = p.mbuf })
