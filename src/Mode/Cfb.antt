-- ===== src/Mode/Cfb.antt =====
-- impl/mode/cfb.c: cipher feedback, in segments of `feedback` bytes. `buf` and `prev` are the arrays of
-- 32 bytes; a copy past their end, which the code does not exclude when `feedback` is more than the
-- block size, is outside the model.
pub mod Segments
pub mod Inverse
pub mod Fast
mod Tests
use drew.Prelude.{
  ℕ, zero, suc, ◌+◌, ◌*◌, ◌/◌, min, Option, none, some, Bool, true, false, ◌&&◌, ◌||◌, List, [],
  ◌++◌, length, take, drop, leb, ◌==◌, if◌then◌else◌,
}
use drew.Util.Rotate.{add_word, sub_word}
use drew.Util.Memory.{overwrite}
use drew.Util.Keystream.{xor_bytes}
use drew.Block.Interface.{BlockCipher}
use drew.Mode.Status.{
  Status, ok, failure, unsigned, err_invalid, err_not_impl, err_not_allowed, err_no_memory,
}

-- `struct cfb`; `algo` may be null. `fast` says which of the two tables `functbl` is.
pub record Cfb : Type 0 where
  pub feedback : ℕ
  pub algo : Option BlockCipher
  pub buf : List ℕ
  pub prev : List ℕ
  pub iv : List ℕ
  pub blksize : ℕ
  pub boff : ℕ
  pub chunks : ℕ
  pub fast : Bool

-- `cfb_init` on the memory of a context, with the first parameter called `feedbackBits`, if there is
-- one.
pub init : Option ℕ → Cfb → Cfb
init bits c = record c {
  feedback = elim bits [ none ↦ 0 | some n ↦ n / 8 ];
  algo = none;
  boff = 0;
  fast = false;
}

-- The part of `cfb_setblock` before the allocation of `iv`.
pub use_block : BlockCipher → Cfb → Cfb
use_block e c =
    let feedback = if c.feedback == 0 then e.block_size else c.feedback in
    let whole = feedback == e.block_size && (e.block_size == 8 || e.block_size == 16) in
    record c {
      algo = some e;
      blksize = e.block_size;
      feedback = feedback;
      chunks = if whole then 16 / e.block_size else c.chunks;
      fast = if whole then true else c.fast;
    }

-- `cfb_setblock`, with what `drew_mem_smalloc` returns.
pub set_block : Option (List ℕ) → Option BlockCipher → Cfb → Status × Cfb
unfolding use_block
set_block mem none c = (unsigned err_invalid, c)
set_block none (some e) c = (failure err_no_memory, record (use_block e c) { iv = [] })
set_block (some iv) (some e) c = (ok, record (use_block e c) { iv = iv })

-- `boff` is left as it is.
pub set_iv : List ℕ → Cfb → Status × Cfb
set_iv iv c =
    if c.blksize == length iv
    then (ok, record c { prev = overwrite c.prev 0 iv; buf = overwrite c.buf 0 iv; iv = iv })
    else (failure err_invalid, c)

-- The length that the code passes is `blksize`, the size of the array `iv` once there is one.
pub reset : Cfb → Status × Cfb
unfolding set_iv
reset c =
    let (status, c') = set_iv c.iv c in
    elim status [
      | ok ↦ (ok, record c' { boff = 0 })
      | failure n ↦ (failure n, c')
      | unsigned n ↦ (unsigned n, c')
    ]

pub resync : Cfb → Status
resync c = failure err_not_impl

pub set_data : List ℕ → Cfb → Status
set_data bytes c = failure err_not_allowed

-- The arrays that a segment changes.
pub record Feedback : Type 0 where
  pub buf : List ℕ
  pub prev : List ℕ

-- What a call has written, the arrays, and `boff`.
pub record Written : Type 0 where
  pub out : List ℕ
  pub arrays : Feedback
  pub boff : ℕ

-- `if (len) { … }` at the end, for either direction.
pub finish : (ℕ → Feedback → List ℕ → List ℕ × Feedback) → ℕ → Feedback → List ℕ → Written
finish segment boff s inp =
    let (out, s') = segment (length inp) s inp in
    if length inp == 0
    then record { out = []; arrays = s; boff = boff }
    else record { out = out; arrays = s'; boff = length inp }

module _ (e : BlockCipher) (blksize feedback : ℕ) where
  -- `encrypt(c->algo, c->buf, c->prev)`, and the `memmove`.
  pub refill : Feedback → Feedback
  refill s = record {
    buf = overwrite s.buf 0 (e.encrypt (take blksize s.prev));
    prev = overwrite s.prev 0 (take (sub_word 64 blksize feedback) (drop feedback s.prev));
  }

  -- A segment of `m` bytes, which is whole or the last: the bytes written, and the arrays.
  pub encrypt_segment : ℕ → Feedback → List ℕ → List ℕ × Feedback
  unfolding refill
  encrypt_segment m s inp =
      let s' = refill s in
      let out = xor_bytes (take m s'.buf) (take m inp) in
      (
        out,
        record {
          buf = overwrite s'.buf 0 out;
          prev = overwrite s'.prev (sub_word 64 blksize feedback) out;
        },
      )

  pub decrypt_segment : ℕ → Feedback → List ℕ → List ℕ × Feedback
  unfolding refill
  decrypt_segment m s inp =
      let s' = refill s in
      (
        xor_bytes (take m s'.buf) (take m inp),
        record s' { prev = overwrite s'.prev (sub_word 64 blksize feedback) (take m inp) },
      )

  -- From `while (len >= c->feedback)` to the end. A round of fuel for each byte is enough, since a round
  -- takes at least one.
  pub segments : (ℕ → Feedback → List ℕ → List ℕ × Feedback) → ℕ → ℕ → Feedback → List ℕ → Written
  unfolding finish
  segments segment zero boff s inp = finish segment boff s inp
  segments segment (suc fuel) boff s inp =
      let (out, s') = segment feedback s inp in
      let r = segments segment fuel boff s' (drop feedback inp) in
      if leb feedback (length inp)
      then record r { out = out ++ r.out }
      else finish segment boff s inp

-- A call on the context, with the bytes that it has written in the segment that was begun.
pub returned : Cfb → List ℕ → Written → List ℕ × Cfb
returned c head w =
    (head ++ w.out, record c { buf = w.arrays.buf; prev = w.arrays.prev; boff = w.boff })

-- The bytes of the message that go into the segment that was begun: `MIN(c->feedback - c->boff, len)`.
pub head_size : Cfb → List ℕ → ℕ
head_size c inp = min (sub_word 64 c.feedback c.boff) (length inp)

pub encrypt_with : BlockCipher → Cfb → List ℕ → List ℕ × Cfb
unfolding segments encrypt_segment returned head_size
encrypt_with e c inp =
    let arrays : Feedback = record { buf = c.buf; prev = c.prev } in
    let run = segments e c.blksize c.feedback (encrypt_segment e c.blksize c.feedback) in
    let b = head_size c inp in
    let head = xor_bytes (take b (drop c.boff c.buf)) (take b inp) in
    let begun : Feedback = record {
      buf = overwrite c.buf c.boff head;
      prev = overwrite c.prev (add_word 64 (sub_word 64 c.blksize c.feedback) c.boff) head;
    } in
    let next = add_word 64 c.boff b in
    let boff = if next == c.feedback then 0 else next in
    if c.boff == 0
    then returned c [] (run (length inp) 0 arrays inp)
    else returned c head (run (length (drop b inp)) boff begun (drop b inp))

-- `boff` goes down here, where it goes up in `encrypt_with`.
pub decrypt_with : BlockCipher → Cfb → List ℕ → List ℕ × Cfb
unfolding segments decrypt_segment returned head_size
decrypt_with e c inp =
    let arrays : Feedback = record { buf = c.buf; prev = c.prev } in
    let run = segments e c.blksize c.feedback (decrypt_segment e c.blksize c.feedback) in
    let b = head_size c inp in
    let head = xor_bytes (take b (drop c.boff c.buf)) (take b inp) in
    let begun : Feedback = record arrays {
      prev = overwrite c.prev (add_word 64 (sub_word 64 c.blksize c.feedback) c.boff) (take b inp);
    } in
    let boff = sub_word 64 c.boff b in
    if c.boff == 0
    then returned c [] (run (length inp) 0 arrays inp)
    else returned c head (run (length (drop b inp)) boff begun (drop b inp))

-- The calls through `algo`; `none` is the call through a null pointer.
pub through : (BlockCipher → Cfb → List ℕ → List ℕ × Cfb) → Cfb → List ℕ → Option (List ℕ × Cfb)
through call c inp = elim c.algo [ none ↦ none | some e ↦ some (call e c inp) ]
