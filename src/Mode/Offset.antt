-- ===== src/Mode/Offset.antt =====
-- The loops that `ctr_encrypt` of impl/mode/ctr.cc and `ofb_encrypt` of impl/mode/ofb.c share: a
-- buffer of keystream of which `boff` bytes are used, and what gives the next buffer as a parameter.
pub mod Refine
use drew.Prelude.{ℕ, ◌+◌, ◌-◌, min, List, ◌++◌, length, take, drop, ◌==◌, if◌then◌else◌}
use drew.Util.Keystream.{xor_bytes, Progress, whole_buffers}

-- What the loops change of a context; `obj` is what the next buffer is made of.
pub record Front (O : Type 0) : Type 0 where
  pub buf : List ℕ
  pub boff : ℕ
  pub obj : O

module _ {O : Type 0} (blksize : ℕ) (next_block : O → List ℕ × O) where
  -- `if (len) { … }` at the end, with the value that `c->boff` has there.
  unfoldable pub finish : ℕ → Progress O → List ℕ × Front O
  finish boff p =
      let (buf, obj) = next_block p.obj in
      if length p.rest == 0 then (p.out, record { buf = p.mbuf; boff = boff; obj = p.obj }) else (
        p.out ++ xor_bytes (take (length p.rest) buf) p.rest,
        record { buf = buf; boff = length p.rest; obj = obj },
      )

  -- From the `while` to the end.
  unfoldable pub encrypt_rest : ℕ → Front O → List ℕ → List ℕ × Front O
  encrypt_rest boff s inp =
      finish boff (whole_buffers blksize next_block (length inp) s.buf s.obj inp)

  unfoldable pub encrypt_front : Front O → List ℕ → List ℕ × Front O
  encrypt_front s inp =
      let b = min (blksize - s.boff) (length inp) in
      let boff = if s.boff + b == blksize then 0 else s.boff + b in
      let head = xor_bytes (take b (drop s.boff s.buf)) (take b inp) in
      let (tail, s') = encrypt_rest boff s (drop b inp) in
      if s.boff == 0 then encrypt_rest 0 s inp else (head ++ tail, s')
