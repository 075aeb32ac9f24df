-- ===== src/Stream/Salsa20.antt =====
-- impl/stream/salsa20/salsa20.cc and salsa20.hh: Salsa20, with the portable keystream.
pub mod Layout
pub mod Message
pub mod Fast
mod Tests
use drew.Prelude.{
  ℕ, zero, suc, ◌+◌, ◌*◌, ◌/◌, ◌%◌, ◌^◌, List, [], ◌∷◌, bit_xor, length, take, drop, get_or, set,
  ◌==◌, if◌then◌else◌,
}
use drew.Prelude.Loops.{repeat}
use drew.Util.Rotate.{rotate_left, add_word}
use drew.Util.Endian.{little, copy_in, copy_out}
use drew.Util.Memory.{overwrite}
use drew.Util.Keystream.{Cursor, copy_and_xor}
use drew.Util.Keystream.Aligned.{copy_and_xor_aligned}

-- `Salsa20Keystream`; `state` is the array of 16 words.
pub record Keystream : Type 0 where
  pub keysz : ℕ
  pub nrounds : ℕ
  pub state : List ℕ
  pub ctr : ℕ

-- `Salsa20`
pub record Salsa20 : Type 0 where
  pub ks : Keystream
  pub buf : List ℕ
  pub nbytes : ℕ

-- `cur.buf[target] ^= RotateLeft(cur.buf[first] + cur.buf[second], by);`
pub record Line : Type 0 where
  pub target : ℕ
  pub first : ℕ
  pub second : ℕ
  pub by_bits : ℕ

abbrev line : ℕ → ℕ → ℕ → ℕ → Line
line a b c n = record { target = a; first = b; second = c; by_bits = n }

-- The lines of the loop, the columns and then the rows.
abbrev pub lines : List Line
lines =
    line 4 0 12 7
    ∷ line 8 4 0 9
    ∷ line 12 8 4 13
    ∷ line 0 12 8 18
    ∷ line 9 5 1 7
    ∷ line 13 9 5 9
    ∷ line 1 13 9 13
    ∷ line 5 1 13 18
    ∷ line 14 10 6 7
    ∷ line 2 14 10 9
    ∷ line 6 2 14 13
    ∷ line 10 6 2 18
    ∷ line 3 15 11 7
    ∷ line 7 3 15 9
    ∷ line 11 7 3 13
    ∷ line 15 11 7 18
    ∷ line 1 0 3 7
    ∷ line 2 1 0 9
    ∷ line 3 2 1 13
    ∷ line 0 3 2 18
    ∷ line 6 5 4 7
    ∷ line 7 6 5 9
    ∷ line 4 7 6 13
    ∷ line 5 4 7 18
    ∷ line 11 10 9 7
    ∷ line 8 11 10 9
    ∷ line 9 8 11 13
    ∷ line 10 9 8 18
    ∷ line 12 15 14 7
    ∷ line 13 12 15 9
    ∷ line 14 13 12 13
    ∷ line 15 14 13 18
    ∷ []

pub run : List Line → List ℕ → List ℕ
run [] cur = cur
run (l ∷ ls) cur = run ls (
    set cur l.target (
      bit_xor (get_or cur l.target 0)
        (rotate_left 32 (add_word 32 (get_or cur l.first 0) (get_or cur l.second 0)) l.by_bits)))

-- `cur.buf[i] += st.buf[i]`, for `n` words from word `i`.
unfoldable pub add_words : ℕ → ℕ → List ℕ → List ℕ → List ℕ
add_words zero i cur st = []
add_words (suc n) i cur st =
    add_word 32 (get_or cur i 0) (get_or st i 0) ∷ add_words n (i + 1) cur st

-- `DoHash`
pub do_hash : ℕ → List ℕ → List ℕ
unfolding run add_words
do_hash nrounds st = add_words 16 0 (repeat nrounds (run lines) st) st

-- `FillBuffer`
pub fill_buffer : Keystream → List ℕ × Keystream
unfolding do_hash
fill_buffer k =
    let st = set (set k.state 8 (k.ctr % 2 ^ 32)) 9 (k.ctr / 2 ^ 32 % 2 ^ 32) in
    (copy_out little 4 (do_hash k.nrounds st), record k { state = st; ctr = (k.ctr + 1) % 2 ^ 64 })

-- `FillBufferAligned` on a host of the order of `E`: the hash is made in the memory of the buffer.
pub fill_buffer_aligned : Keystream → List ℕ × Keystream
unfolding do_hash
fill_buffer_aligned k =
    let st = set (set k.state 8 (k.ctr % 2 ^ 32)) 9 (k.ctr / 2 ^ 32 % 2 ^ 32) in
    let words = do_hash k.nrounds st in
    (copy_out little 4 words, record k { state = st; ctr = (k.ctr + 1) % 2 ^ 64 })

-- The operations of `Salsa20Keystream`.
pub ks_reset : Keystream → Keystream
ks_reset k = record k { ctr = 0 }

pub ks_set_rounds : ℕ → Keystream → Keystream
ks_set_rounds rounds k = record k { nrounds = rounds }

pub ks_set_key : List ℕ → Keystream → Keystream
ks_set_key key k =
    let sz = length key in
    let st = overwrite k.state 1 (copy_in little 4 4 key) in
    record k {
      keysz = sz;
      state = overwrite st 11 (copy_in little 4 4 (if sz == 16 then key else drop 16 key));
    }

pub ks_set_nonce : List ℕ → Keystream → Keystream
ks_set_nonce iv k =
    let st = overwrite k.state 6 (copy_in little 4 (length iv / 4) iv) in
    let short = k.keysz == 16 in
    record k {
      state =
          set
            (set (set (set st 0 0x61707865) 5 (if short then 0x3120646e else 0x3320646e)) 10
              (if short then 0x79622d36 else 0x79622d32))
            15 0x6b206574;
    }

-- The operations of `Salsa20`.
pub reset : Salsa20 → Salsa20
unfolding ks_reset
reset c = record c { ks = ks_reset c.ks; nbytes = 0 }

pub set_key : List ℕ → Salsa20 → Salsa20
unfolding ks_reset ks_set_key
set_key key c = record c { ks = ks_set_key key (ks_reset c.ks); nbytes = 0 }

pub set_nonce : List ℕ → Salsa20 → Salsa20
unfolding ks_set_nonce
set_nonce iv c = record c { ks = ks_set_nonce iv c.ks }

-- `Encrypt`, which is also `Decrypt`.
pub encrypt : Salsa20 → List ℕ → List ℕ × Salsa20
unfolding fill_buffer
encrypt c inp =
    let (out, s) =
      copy_and_xor 64 fill_buffer (record { mbuf = c.buf; bufrem = c.nbytes; obj = c.ks }) inp in
    (out, record c { ks = s.obj; buf = s.mbuf; nbytes = s.bufrem })

-- `EncryptFast`, on `len` bytes of two arrays; `m_nbytes` stays.
pub encrypt_fast : Salsa20 → ℕ → List ℕ → List ℕ → List ℕ × Salsa20
unfolding fill_buffer_aligned
encrypt_fast c len out inp =
    let p = copy_and_xor_aligned 64 fill_buffer_aligned len out c.buf c.ks inp in
    (p.out, record c { ks = p.obj; buf = p.mbuf })
