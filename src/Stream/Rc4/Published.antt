-- ===== src/Stream/Rc4/Published.antt =====
-- The key schedule, the dropped values and the first buffer of RC4 are those of the published generator.
use mathlib.Core.List.{append_assoc, append-nil}
use drew.Prelude.{
  ℕ, zero, suc, ◌+◌, ◌-◌, ◌%◌, ◌^◌, ◌≤◌, ◌<◌, ◌≡◌, ◌≢◌, refl, sym, ap, ap₂, ◌∙◌, List, [], ◌∷◌,
  ◌++◌, length, take, drop, get_or, set, length-set, length-take, bit_and, arith,
}
use drew.Prelude.Bits.{and-lt}
use drew.Prelude.Loops.{for_up, repeat, for_up_map, repeat_map}
use drew.Util.Endian.Laws.{take-whole, drop-append_self}
use drew.Util.Keystream.{xor_bytes}
use drew.Util.Keystream.Within.{outputs_within}
use drew.Stream.Rc4.{
  Keystream, swap_at, ks_reset, Mixing, mix_byte, ks_set_key, get_value, Filling, fill_buffer, Rc4,
  buffer_byte, reset, set_key, encrypt,
}
use drew.Stream.Rc4.Spec.{Generator, exchange, Schedule, mix, upto, keyed, next, bytes}
use drew.Stream.Rc4.Messages.{encrypt_lem, set_key_whole}

-- The code's words, of which the low bytes count.
abbrev schedule : Mixing → Schedule
schedule m = record { s = m.s; j = m.j % 256 }

abbrev generator : Keystream → Generator
generator k = record { s = k.s; i = k.i % 256; j = k.j % 256 }

mix_byte_lem :
    (key : List ℕ) (i : ℕ) (m : Mixing) → schedule (mix_byte key i m) ≡ mix key i (schedule m)
unfolding mix_byte swap_at mix exchange
mix_byte_lem key i m =
    let a = get_or m.s i 0 in
    let b = get_or key (i % length key) 0 in
    let low : (m.j + a + b) % 2 ^ 32 % 2 ^ 8 ≡ (m.j % 256 + a + b) % 256 = omega arith in
    let made : ℕ → Schedule = λ t. record { s = exchange m.s i t; j = t } in ap made low

start_lem : ks_reset.s ≡ upto 256 0
unfolding ks_reset upto for_up
start_lem = refl

ks_set_key_lem : (key : List ℕ) → generator (ks_set_key key) ≡ keyed key
unfolding ks_set_key keyed
ks_set_key_lem key =
    let began : List ℕ → Schedule = λ s. record { s = s; j = 0 } in
    let made : Schedule → Generator = λ t. record { s = t.s; i = 0; j = 0 } in
    ap made (
      for_up_map schedule (mix_byte key) (mix key) (mix_byte_lem key) 256 0
        (record { s = ks_reset.s; j = 0 }))
    ∙ ap (λ s. made (for_up 256 0 (mix key) (began s))) start_lem

-- A value and the generator after it, by the two indices.
taken : List ℕ → ℕ → ℕ → ℕ × Generator
unfolding exchange
taken s i j =
    let s' = exchange s i j in
    (get_or s' ((get_or s' i 0 + get_or s' j 0) % 256) 0 % 256, record { s = s'; i = i; j = j })

get_value_lem :
    (k : Keystream) → ((get_value k).0 % 256, generator (get_value k).1) ≡ next (generator k)
unfolding get_value swap_at next exchange taken
get_value_lem k =
    let i : ℕ = (k.i + 1) % 2 ^ 32 % 2 ^ 8 in
    let i' : ℕ = (k.i % 256 + 1) % 256 in
    let low_i : i ≡ i' = omega arith in
    let x : ℕ = get_or k.s i 0 in
    let j : ℕ = (k.j + x) % 2 ^ 32 % 2 ^ 8 in
    let low_j : j ≡ (k.j % 256 + get_or k.s i' 0) % 256 =
      (let same : (k.j + x) % 2 ^ 32 % 2 ^ 8 ≡ (k.j % 256 + x) % 256 = omega arith in same)
      ∙ ap (λ t. (k.j % 256 + get_or k.s t 0) % 256) low_i in
    let s : List ℕ = exchange k.s i j in
    let sum : (get_or s i 0 + get_or s j 0) % 2 ^ 32 % 2 ^ 8 ≡ (get_or s i 0 + get_or s j 0) % 256 =
      omega arith in
    let left : Generator = record { s = s; i = i; j = j } in
    ap (λ t. (get_or s t 0 % 256, left)) sum ∙ ap₂ (taken k.s) low_i low_j

take-set :
    (i x : ℕ) (buf : List ℕ) → i < length buf → take (suc i) (set buf i x) ≡ take i buf ++ x ∷ []
take-set i x [] h = absurd (omega arith)
take-set zero x (b ∷ bs) h = refl
take-set (suc i) x (b ∷ bs) h = ap (λ t. b ∷ t) (take-set i x bs (omega arith))

-- The loop of `RC4::Reset` that fills the buffer, from index `i`.
filled :
    (n i : ℕ) (f : Filling)
    → i + n ≡ length f.buf
    → (for_up n i buffer_byte f).buf ≡ take i f.buf ++ bytes n (generator f.ks)
unfolding for_up buffer_byte bytes
filled zero i f h = sym (take-whole i f.buf (omega arith)) ∙ sym (append-nil (take i f.buf))
filled (suc n) i f h =
    let x : ℕ = (get_value f.ks).0 % 256 in
    let more : i < length f.buf = omega arith in
    let size = length-set f.buf i x in
    let one : i + 1 ≡ suc i = omega arith in
    let v = get_value_lem f.ks in
    filled n (i + 1) (buffer_byte i f) (omega arith)
    ∙ ap (λ (m : ℕ). take m (set f.buf i x) ++ bytes n (generator (get_value f.ks).1)) one
    ∙ ap (λ t. t ++ bytes n (generator (get_value f.ks).1)) (take-set i x f.buf more)
    ∙ append_assoc (take i f.buf) (x ∷ []) (bytes n (generator (get_value f.ks).1))
    ∙ ap (λ r. take i f.buf ++ r.0 ∷ bytes n r.1) v

-- A message of at most `256 - (drop & 0xff)` bytes, and not empty, after `SetKey` in an object with any
-- past and a buffer of 256 bytes: `Encrypt` adds to it the bytes of the published generator for that key, of which the first `drop`
-- are left out.
pub rc4_encrypt_lem :
    (key msg : List ℕ) (c : Rc4)
    → length c.buf ≡ 256
    → msg ≢ []
    → length msg ≤ 256 - bit_and c.drop 0xff
    → (encrypt (set_key key c) msg).0
      ≡ xor_bytes
          (bytes (256 - bit_and c.drop 0xff) (repeat c.drop (λ t. (next t).1) (keyed key)))
          msg
unfolding set_key reset
rc4_encrypt_lem key msg c whole some short =
    let start : ℕ = bit_and c.drop 0xff in
    let n : ℕ = 256 - start in
    let low = and-lt 8 c.drop 0xff (omega arith) in
    let k : Rc4 = set_key key c in
    let step : Keystream → Keystream = λ s. (get_value s).1 in
    let dropped : Keystream = repeat c.drop step (ks_set_key key) in
    let begun : generator dropped ≡ repeat c.drop (λ t. (next t).1) (keyed key) =
      repeat_map generator step (λ t. (next t).1) (λ s. ap (λ r. r.1) (get_value_lem s)) c.drop
        (ks_set_key key)
      ∙ ap (repeat c.drop (λ t. (next t).1)) (ks_set_key_lem key) in
    let buf = filled n start (record { ks = dropped; buf = c.buf }) (omega arith) in
    let back : 256 - n ≡ start = omega arith in
    let front = length-take start c.buf in
    ap (λ r. r.0) (encrypt_lem key c msg whole some)
    ∙ outputs_within 256 fill_buffer (omega arith) k.buf n k.ks msg (set_key_whole key c whole)
        (omega arith) short
    ∙ ap (λ t. xor_bytes (drop t k.buf) msg) back
    ∙ ap (λ b. xor_bytes (drop start b) msg) buf
    ∙ ap (λ b. xor_bytes b msg)
        (drop-append_self start (take start c.buf) (bytes n (generator dropped)) (omega arith)
          ∙ ap (bytes n) begun)
