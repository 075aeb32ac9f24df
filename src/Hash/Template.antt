-- ===== src/Hash/Template.antt =====
-- impl/hash/hash.hh: `Hash<T, Size, BufSize, BlkSize, E>`, which every block-wise hash derives from.
-- It collects the message in blocks, counts its bytes in two words of type `T`, and pads it.
pub mod Absorb
pub mod Length
pub mod Update
pub mod Pad
pub mod Fast
pub mod Footer
pub mod Digest
mod Tests
use mathlib.Core.List.{reverse}
use drew.Prelude.{
  ℕ, zero, suc, ◌+◌, ◌-◌, ◌*◌, ◌/◌, ◌%◌, ◌^◌, ◌≤◌, ◌<◌, min, ◌≡◌, Bool, List, [], ◌∷◌, ◌++◌, bit_or,
  length, take, drop, replicate, ltb, leb, ◌==◌, if◌then◌else◌,
}
use drew.Util.Memory.{overwrite}
use drew.Util.Endian.{Endianness, little, big, copy_out}

-- What a derived class fixes: `sizeof(T)`, `BlkSize`, `Size`, `E`, `Transform` and the values that
-- `Reset` puts in `m_hash`. The laws hold of the classes of
-- MD4, MD5, SHA-1 and SHA-2; that of Fugue, whose block has 4 bytes, is not one of these.
pub record Algorithm : Type 0 where
  pub word_size : ℕ
  pub block_size : ℕ
  pub digest_size : ℕ
  pub endian : Endianness
  pub transform : List ℕ → List ℕ → List ℕ
  pub initial_hash : List ℕ
  pub word_some : 0 < word_size
  pub length_fits : 2 * word_size < block_size
  pub blocks : ℕ
  pub block_divides : 256 ^ word_size ≡ blocks * block_size

-- `m_hash`, `m_buf` and `m_len`.
pub record Hash : Type 0 where
  pub hash : List ℕ
  pub buf : List ℕ
  pub len0 : ℕ
  pub len1 : ℕ

module _ (a : Algorithm) where
  -- `Reset`, with `Initialize`.
  unfoldable pub reset : Hash
  reset = record { hash = a.initial_hash; buf = replicate a.block_size 0; len0 = 0; len1 = 0 }

  -- `m_len[0] += len`, and the carry into `m_len[1]`.
  unfoldable pub add_length : ℕ → Hash → Hash
  add_length len s =
      let len0 = (s.len0 + len) % 256 ^ a.word_size in
      record s {
        len0 = len0;
        len1 = if ltb len0 s.len0 then (s.len1 + 1) % 256 ^ a.word_size else s.len1;
      }

  -- `for (; len >= BlkSize; …) Transform(data);`, with the bytes that are left. A round of fuel for
  -- each byte is enough, since a round reads at least one.
  unfoldable pub whole_blocks : ℕ → List ℕ → List ℕ → List ℕ × List ℕ
  whole_blocks zero h inp = (h, inp)
  whole_blocks (suc fuel) h inp =
      let r = whole_blocks fuel (a.transform h (take a.block_size inp)) (drop a.block_size inp) in
      if leb a.block_size (length inp) then r else (h, inp)

  -- From the `for` to the end of `Update`.
  unfoldable pub update_rest : Hash → List ℕ → Hash
  update_rest s inp =
      let (h, rest) = whole_blocks (length inp) s.hash inp in
      record s { hash = h; buf = overwrite s.buf 0 rest }

  -- The body of `if (off)`.
  unfoldable pub fill_buffer : ℕ → Hash → List ℕ → Hash
  fill_buffer off s inp =
      let i = min (a.block_size - off) (length inp) in
      let buf = overwrite s.buf off (take i inp) in
      record s {
        hash = if i + off == a.block_size then a.transform s.hash buf else s.hash;
        buf = buf;
      }

  unfoldable pub update : Hash → List ℕ → Hash
  update s inp =
      let off = s.len0 % a.block_size in
      let i = min (a.block_size - off) (length inp) in
      let s' = add_length (length inp) s in
      if off == 0 then update_rest s' inp else update_rest (fill_buffer off s' inp) (drop i inp)

  -- `UpdateFast`, for a message of whole blocks at the start of a block.
  unfoldable pub update_fast : Hash → List ℕ → Hash
  update_fast s inp =
      let s' = add_length (length inp) s in
      record s' { hash = (whole_blocks (length inp / a.block_size) s.hash inp).0 }

  -- The array `len` in memory, and `E::Copy(buf+trip, len, sizeof(len), sizeof(len))`, which turns
  -- all of it round in the other byte order.
  unfoldable pub length_bytes : ℕ → ℕ → List ℕ
  length_bytes len0 len1 =
      let hi = bit_or (len1 * 2 ^ 3 % 256 ^ a.word_size) (len0 / 2 ^ (a.word_size * 8 - 3)) in
      let lo = len0 * 2 ^ 3 % 256 ^ a.word_size in
      let bytes = copy_out little a.word_size (lo ∷ hi ∷ []) in
      elim a.endian [ little ↦ bytes | big ↦ reverse bytes ]

  -- `buf[noff] = 0x80`, and the first `Transform` if the length does not fit any more; the result
  -- has the `off` from which the last block is cleared.
  unfoldable pub pad_mark : Hash → Hash × ℕ
  pad_mark s =
      let noff = s.len0 % a.block_size in
      let marked = overwrite s.buf noff (0x80 ∷ []) in
      let cleared = overwrite marked (noff + 1) (replicate (a.block_size - (noff + 1)) 0) in
      if leb (a.block_size - 2 * a.word_size) noff
      then (record s { hash = a.transform s.hash cleared; buf = cleared }, 0)
      else (record s { buf = marked }, noff + 1)

  unfoldable pub pad : Hash → Hash
  pad s =
      let trip = a.block_size - 2 * a.word_size in
      let (s', off) = pad_mark s in
      let cleared = overwrite s'.buf off (replicate (trip - off) 0) in
      let buf = overwrite cleared trip (length_bytes s.len0 s.len1) in
      record s' { hash = a.transform s'.hash buf; buf = buf }

  -- `GetDigest`: `CopyCarefully` gives the first `len` bytes of the words in the byte order.
  unfoldable pub get_digest : Hash → ℕ → Bool → List ℕ × Hash
  get_digest s len nopad =
      let s' = if nopad then s else pad s in (take len (copy_out a.endian a.word_size s'.hash), s')
