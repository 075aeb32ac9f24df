-- ===== src/Stream/Rc4/Messages.antt =====
-- RC4 on messages: the array stays a permutation.
use drew.Prelude.{
  ℕ, ◌-◌, ◌≤◌, ◌<◌, ◌≡◌, ◌≢◌, inl, inr, refl, ap, ◌∙◌, List, [], ◌∷◌, length, length-append,
  length-set, bit_and, ◌==◌, Bool-cases, arith,
}
use drew.Prelude.Bits.{and-lt}
use drew.Prelude.Loops.{for_up_inv, for_up_count}
use drew.Util.Keystream.{Cursor, copy_and_xor}
use drew.Util.Keystream.Spec.{refill, advance, outputs, after}
use drew.Util.Keystream.Refine.{copy_and_xor_lem}
use drew.Util.Keystream.Split.{full_buffer_lost}
use drew.Stream.Rc4.{Keystream, fill_byte, fill_buffer, Rc4, buffer_byte, reset, set_key, encrypt}
use drew.Stream.Rc4.Permutation.{IsPermutation, fill_buffer-IsPermutation, set_key-IsPermutation}

-- Every call of `FillBuffer` gives 256 bytes.
fill_buffer_full : (k : Keystream) → length (fill_buffer k).0 ≡ 256
unfolding fill_buffer fill_byte
fill_buffer_full k =
    for_up_count (λ i f. length f.buf ≡ i) fill_byte 256
      (λ i f l h. omega (arith, length-append f.buf (_ ∷ []))) 256 0 (record { ks = k; buf = [] })
      refl refl

abbrev cursor : Rc4 → Cursor Keystream
cursor c = record { mbuf = c.buf; bufrem = c.nbytes; obj = c.ks }

pub set_key_whole :
    (key : List ℕ) (c : Rc4) → length c.buf ≡ 256 → length ((set_key key c).buf) ≡ 256
unfolding set_key reset buffer_byte
set_key_whole key c h =
    for_up_inv (λ f. length f.buf ≡ 256) buffer_byte (λ i f k. length-set f.buf i _ ∙ k)
      (256 - bit_and c.drop 0xff) (bit_and c.drop 0xff) _ h

set_key_some :
    (key : List ℕ) (c : Rc4) → (0 < (set_key key c).nbytes) × ((set_key key c).nbytes ≤ 256)
unfolding set_key reset
set_key_some key c = let low = and-lt 8 c.drop 0xff (omega arith) in (omega arith, omega arith)

-- After the key schedule a message that is not empty becomes what the byte-at-a-time cipher makes
-- of it.
pub encrypt_lem :
    (key : List ℕ) (c : Rc4) (xs : List ℕ)
    → length c.buf ≡ 256
    → xs ≢ []
    → encrypt (set_key key c) xs ≡ (
      outputs 256 fill_buffer (cursor (set_key key c)) xs,
      (let s = after 256 fill_buffer (cursor (set_key key c)) xs in
          record (set_key key c) { buf = s.mbuf; nbytes = s.bufrem; ks = s.obj }),
    )
unfolding encrypt
encrypt_lem key c xs h ne =
    let k = set_key key c in
    ap
      (λ (r : List ℕ × Cursor Keystream).
        (r.0, record k { buf = r.1.mbuf; nbytes = r.1.bufrem; ks = r.1.obj }))
      (copy_and_xor_lem 256 fill_buffer (omega arith) fill_buffer_full (cursor k) xs
        (set_key_whole key c h) ((set_key_some key c).1) (inr ne))

cons-ne-nil : (x : ℕ) (xs : List ℕ) → x ∷ xs ≢ []
cons-ne-nil x xs e = omega (arith, ap length e)

refill-IsPermutation :
    (s : Cursor Keystream)
    → IsPermutation (s.obj.s)
    → IsPermutation ((refill 256 fill_buffer s).obj.s)
unfolding refill
refill-IsPermutation s h = elim (Bool-cases (s.bufrem == 0)) [
  | inl empty ↦ rw empty (fill_buffer-IsPermutation s.obj h)
  | inr left ↦ rw left h
]

after-IsPermutation :
    (s : Cursor Keystream) (xs : List ℕ)
    → IsPermutation (s.obj.s)
    → IsPermutation ((after 256 fill_buffer s xs).obj.s)
unfolding after advance
after-IsPermutation s [] h = h
after-IsPermutation s (x ∷ xs) h =
    after-IsPermutation (advance 256 fill_buffer s) xs (refill-IsPermutation s h)

-- The array of the generator is still a permutation of the bytes after any message that is not
-- empty.
pub rc4_encrypt-IsPermutation :
    (key : List ℕ) (c : Rc4) (x : ℕ) (xs : List ℕ)
    → length c.buf ≡ 256
    → IsPermutation ((encrypt (set_key key c) (x ∷ xs)).1.ks.s)
rc4_encrypt-IsPermutation key c x xs h =
    rw (encrypt_lem key c (x ∷ xs) h (cons-ne-nil x xs))
      (after-IsPermutation (cursor (set_key key c)) (x ∷ xs) (set_key-IsPermutation key c))

-- Without dropped values, an empty message after the key schedule throws the first 256 bytes of the
-- keystream away: the count of unused bytes falls from 256 to 0.
pub rc4_empty_message :
    (key : List ℕ) (c : Rc4)
    → c.drop ≡ 0
    → ((set_key key c).nbytes ≡ 256)
      × (encrypt (set_key key c) [] ≡ ([], record (set_key key c) { nbytes = 0 }))
unfolding encrypt set_key reset
rc4_empty_message key c d =
    let unused : 256 - bit_and c.drop 0xff ≡ 256 = ap (λ (t : ℕ). 256 - bit_and t 0xff) d in
    let k = set_key key c in
    (
      unused,
      ap
            (λ n.
              let (out, s) =
                copy_and_xor 256 fill_buffer (record { mbuf = k.buf; bufrem = n; obj = k.ks }) [] in
              (out, record k { buf = s.mbuf; nbytes = s.bufrem; ks = s.obj }))
            unused
          ∙ ap
              (λ (r : List ℕ × Cursor Keystream).
                (r.0, record k { buf = r.1.mbuf; nbytes = r.1.bufrem; ks = r.1.obj }))
              (full_buffer_lost 256 fill_buffer k.buf k.ks fill_buffer_full (omega arith)),
    )
