-- ===== src/Stream/Rc4.antt =====
-- impl/stream/rc4/rc4.hh and rc4.cc: the keystream generator with 32-bit words for `obj_t`, and the
-- cipher that adds it to a message through `CopyAndXor`.
pub mod Permutation
pub mod Messages
pub mod Spec
pub mod Published
mod Tests
use drew.Prelude.{
  ℕ, ◌+◌, ◌-◌, ◌%◌, ◌^◌, List, [], ◌∷◌, ◌++◌, length, replicate, bit_and, get_or, set,
}
use drew.Prelude.Loops.{for_up, repeat}
use drew.Util.Keystream.{Cursor, copy_and_xor}
use drew.Util.Keystream.Aligned.{copy_and_xor_aligned}

-- `RC4Keystream<unsigned>`
pub record Keystream : Type 0 where
  pub s : List ℕ
  pub i : ℕ
  pub j : ℕ

-- `std::swap(s[a], s[b])`
pub swap_at : List ℕ → ℕ → ℕ → List ℕ
swap_at s a b = set (set s a (get_or s b 0)) b (get_or s a 0)

-- `RC4Keystream::Reset` on an object whose array has 256 entries.
pub ks_reset : Keystream
ks_reset = record { s = for_up 256 0 (λ i s. set s i i) (replicate 256 0); i = 0; j = 0 }

-- The variables of the loop of `RC4Keystream::SetKey`; this `j` is its own.
pub record Mixing : Type 0 where
  pub s : List ℕ
  pub j : ℕ

pub mix_byte : List ℕ → ℕ → Mixing → Mixing
unfolding swap_at
mix_byte key i m =
    let j = (m.j + get_or m.s i 0 + get_or key (i % length key) 0) % 2 ^ 32 in
    record { s = swap_at m.s i (j % 2 ^ 8); j = j }

pub ks_set_key : List ℕ → Keystream
unfolding ks_reset mix_byte
ks_set_key key =
    let m = for_up 256 0 (mix_byte key) (record { s = ks_reset.s; j = 0 }) in
    record ks_reset { s = m.s }

-- `s[uint8_t(x + y)]` for the two entries that were swapped.
abbrev pub output : List ℕ → ℕ → ℕ → ℕ
output s x y = get_or s ((get_or s x 0 + get_or s y 0) % 2 ^ 32 % 2 ^ 8) 0

pub get_value : Keystream → ℕ × Keystream
unfolding swap_at
get_value k =
    let i = (k.i + 1) % 2 ^ 32 in
    let j = (k.j + get_or k.s (i % 2 ^ 8) 0) % 2 ^ 32 in
    let s = swap_at k.s (i % 2 ^ 8) (j % 2 ^ 8) in
    (output s (i % 2 ^ 8) (j % 2 ^ 8), record { s = s; i = i; j = j })

-- The loop of `FillBuffer`; its `i` is its own, and that of the object stays.
pub record Filling : Type 0 where
  pub ks : Keystream
  pub buf : List ℕ

pub fill_byte : ℕ → Filling → Filling
unfolding swap_at
fill_byte i f =
    let j = (f.ks.j + get_or f.ks.s i 0) % 2 ^ 32 in
    let s = swap_at f.ks.s i (j % 2 ^ 8) in
    record {
      ks = record { s = s; i = f.ks.i; j = j };
      buf = f.buf ++ output s i (j % 2 ^ 8) % 2 ^ 8 ∷ [];
    }

pub fill_buffer : Keystream → List ℕ × Keystream
unfolding fill_byte
fill_buffer k = let f = for_up 256 0 fill_byte (record { ks = k; buf = [] }) in (f.buf, f.ks)

-- `RC4`
pub record Rc4 : Type 0 where
  pub ks : Keystream
  pub drop : ℕ
  pub key : List ℕ
  pub buf : List ℕ
  pub nbytes : ℕ

-- The body of the loop of `RC4::Reset` that fills the buffer.
pub buffer_byte : ℕ → Filling → Filling
unfolding get_value
buffer_byte i f = let (x, ks) = get_value f.ks in record { ks = ks; buf = set f.buf i (x % 2 ^ 8) }

pub reset : Rc4 → Rc4
unfolding ks_set_key get_value buffer_byte
reset c =
    let dropped = repeat c.drop (λ k. (get_value k).1) (ks_set_key c.key) in
    let start = bit_and c.drop 0xff in
    let f = for_up (256 - start) start buffer_byte (record { ks = dropped; buf = c.buf }) in
    record c { ks = f.ks; buf = f.buf; nbytes = 256 - start }

-- For a key of 1 to 256 bytes.
pub set_key : List ℕ → Rc4 → Rc4
unfolding reset
set_key key c = reset (record c { key = key })

-- `Encrypt`, and `Decrypt`, which calls it.
pub encrypt : Rc4 → List ℕ → List ℕ × Rc4
unfolding fill_buffer
encrypt c inp =
    let (out, s) =
      copy_and_xor 256 fill_buffer (record { mbuf = c.buf; bufrem = c.nbytes; obj = c.ks }) inp in
    (out, record c { buf = s.mbuf; nbytes = s.bufrem; ks = s.obj })

-- `EncryptFast`, and `DecryptFast`, which calls it, on `len` bytes of two arrays; `m_nbytes` stays.
-- `FillBufferAligned` calls `FillBuffer`.
encrypt_fast : Rc4 → ℕ → List ℕ → List ℕ → List ℕ × Rc4
unfolding fill_buffer
encrypt_fast c len out inp =
    let p = copy_and_xor_aligned 256 fill_buffer len out c.buf c.ks inp in
    (p.out, record c { ks = p.obj; buf = p.mbuf })
