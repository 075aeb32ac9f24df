-- ===== src/Util/Keystream.antt =====
-- `CopyAndXor` of include/util.hh, which adds the bytes of a refilled buffer to a message, and the
-- byte-at-a-time cipher that it has to be equal to. The object with `FillBuffer` is a parameter.
pub mod Bytes
pub mod Spec
pub mod Within
pub mod Whole
pub mod Refine
pub mod Split
pub mod Stream
pub mod Aligned
pub mod Agree
use drew.Prelude.{
  ℕ, zero, suc, ◌+◌, ◌-◌, ◌%◌, min, List, [], ◌∷◌, ◌++◌, bit_xor, length, take, drop, leb, ◌==◌,
  if◌then◌else◌,
}

-- `out[i] = a[i] ^ b[i]` over the common length.
unfoldable pub xor_bytes : List ℕ → List ℕ → List ℕ
xor_bytes [] bs = []
xor_bytes (a ∷ xs) [] = []
xor_bytes (a ∷ xs) (b ∷ bs) = bit_xor a b ∷ xor_bytes xs bs

-- What the caller keeps between calls: `mbuf`, `bufrem` and the object that fills the buffer.
pub record Cursor (O : Type 0) : Type 0 where
  pub mbuf : List ℕ
  pub bufrem : ℕ
  pub obj : O

-- The variables of the loop over whole buffers: the bytes written, the bytes still to read.
pub record Progress (O : Type 0) : Type 0 where
  pub out : List ℕ
  pub rest : List ℕ
  pub mbuf : List ℕ
  pub obj : O

module _ {O : Type 0} (bufsz : ℕ) (fill : O → List ℕ × O) where
  -- `while (len >= bufsz)`; one round of fuel for each byte is enough, since a round reads at least
  -- one.
  unfoldable pub whole_buffers : ℕ → List ℕ → O → List ℕ → Progress O
  whole_buffers zero mbuf obj inp = record { out = []; rest = inp; mbuf = mbuf; obj = obj }
  whole_buffers (suc fuel) mbuf obj inp =
      let (buf, obj') = fill obj in
      let p = whole_buffers fuel buf obj' (drop bufsz inp) in
      if leb bufsz (length inp)
      then record {
        out = xor_bytes buf (take bufsz inp) ++ p.out;
        rest = p.rest;
        mbuf = p.mbuf;
        obj = p.obj;
      }
      else record { out = []; rest = inp; mbuf = mbuf; obj = obj }

  -- `if (len) { … }` and `bufrem = …`, with the value that `boff` has there. The result is the bytes
  -- written and the caller's new state.
  unfoldable pub last_buffer : ℕ → Progress O → List ℕ × Cursor O
  last_buffer boff p =
      let (buf, obj') = fill p.obj in
      if length p.rest == 0
      then (p.out, record { mbuf = p.mbuf; bufrem = (bufsz - boff) % bufsz; obj = p.obj })
      else (
        p.out ++ xor_bytes (take (length p.rest) buf) p.rest,
        record { mbuf = buf; bufrem = (bufsz - length p.rest) % bufsz; obj = obj' },
      )

  -- From `while (len >= bufsz)` to the end.
  unfoldable pub copy_rest : List ℕ → ℕ → O → List ℕ → List ℕ × Cursor O
  copy_rest mbuf boff obj inp = last_buffer boff (whole_buffers (length inp) mbuf obj inp)

  unfoldable pub copy_and_xor : Cursor O → List ℕ → List ℕ × Cursor O
  copy_and_xor s inp =
      let boff = (bufsz - s.bufrem) % bufsz in
      let b = min s.bufrem (length inp) in
      let boff' = if boff + b == bufsz then 0 else boff + b in
      let head = xor_bytes (take b (drop boff s.mbuf)) (take b inp) in
      let (tail, s') = copy_rest s.mbuf boff' s.obj (drop b inp) in
      if s.bufrem == 0 then copy_rest s.mbuf boff s.obj inp else (head ++ tail, s')
