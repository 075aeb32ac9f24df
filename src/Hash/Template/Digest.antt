-- ===== src/Hash/Template/Digest.antt =====
-- The digest: however the message is cut into updates, it is the hash of the padded message.
use native.Mathlib.Nat.{
  one-le-pow, mod-eq_of_lt, mod-add-mod, mul_left_comm, add-mul-mod_self_left, div-add-mod,
  zero-mod,
}
use mathlib.Core.List.{append_assoc, append-nil}
use drew.Prelude.{
  ℕ, ◌+◌, ◌*◌, ◌/◌, ◌%◌, ◌^◌, ◌<◌, inl, inr, ◌≡◌, refl, sym, ap, ap₂, ◌∙◌, false, List, [], ◌∷◌,
  ◌++◌, length, take, length-append, replicate, length-replicate, ◌==◌, Bool-cases, arith,
}
use drew.Util.Endian.{store, copy_out}
use drew.Hash.Template.{
  Algorithm, Hash, reset, add_length, update_rest, fill_buffer, update, length_bytes, pad,
  get_digest,
}
use drew.Hash.Template.Absorb.{Absorbed, absorb, absorb-append}
use drew.Hash.Template.Length.{mod-mod_mul, count, IsCounted, add_length_lem, add_length-IsCounted}
use drew.Hash.Template.Update.{view, update_lem}
use drew.Hash.Template.Pad.{fill_bytes, pad_lem}
use drew.Hash.Template.Footer.{length_bytes_lem, length-length_bytes}

-- The calls of `Update` that give the object a message in pieces, and the message.
unfoldable pub feed : Algorithm → Hash → List (List ℕ) → Hash
feed a s [] = s
feed a s (c ∷ cs) = feed a (update a s c) cs

unfoldable pub join : List (List ℕ) → List ℕ
join [] = []
join (c ∷ cs) = c ++ join cs

abbrev pub AllShort : Algorithm → List (List ℕ) → Type 0
AllShort a [] = Unit
AllShort a (c ∷ cs) = (length c < 256 ^ a.word_size) × AllShort a cs

abbrev pub start : Algorithm → Absorbed
start a = record { hash = a.initial_hash; pending = [] }

-- The message with its padding: a mark, zeros, and the number of bits in two words.
abbrev pub padded : Algorithm → List ℕ → List ℕ
padded a msg =
    msg
    ++ (fill_bytes a (length msg % a.block_size)
        ++ store a.endian (a.word_size + a.word_size)
            (8 * length msg % (256 ^ a.word_size * 256 ^ a.word_size)))

-- What the state knows of the message so far.
record IsFed (a : Algorithm) (s : Hash) (msg : List ℕ) : Type 0 where
  absorbed : view a s ≡ absorb a (start a) msg
  size : length s.buf ≡ a.block_size
  counted : IsCounted a s
  total : count a s ≡ length msg % (256 ^ a.word_size * 256 ^ a.word_size)

eight-mod : (n m : ℕ) → 8 * (n % m) % m ≡ 8 * n % m
eight-mod n m =
    let split : m * (n / m) + n % m ≡ n = div-add-mod n m in
    let high : m * (8 * (n / m)) ≡ 8 * (m * (n / m)) = mul_left_comm m 8 (n / m) in
    let total : 8 * n ≡ 8 * (n % m) + m * (8 * (n / m)) = omega arith in
    sym (ap (λ (t : ℕ). t % m) total ∙ add-mul-mod_self_left (8 * (n % m)) m (8 * (n / m)))

module _ (a : Algorithm) where
  range_some : 0 < 256 ^ a.word_size
  range_some = one-le-pow a.word_size 256 (omega arith)

  reset-IsFed : IsFed a (reset a) []
  unfolding reset view absorb
  reset-IsFed = record {
    absorbed =
        ap (λ t. record { hash = a.initial_hash; pending = take t (replicate a.block_size 0) })
          (zero-mod a.block_size);
    size = length-replicate a.block_size 0;
    counted = record { low = range_some; high = range_some };
    total = (omega arith) ∙ sym (zero-mod (256 ^ a.word_size * 256 ^ a.word_size));
  }

  update-length :
      (s : Hash) (inp : List ℕ)
      → ((update a s inp).len0 ≡ (add_length a (length inp) s).len0)
        × ((update a s inp).len1 ≡ (add_length a (length inp) s).len1)
  unfolding update update_rest fill_buffer
  update-length s inp = elim (Bool-cases (s.len0 % a.block_size == 0)) [
    | inl aligned ↦ rw aligned (refl, refl)
    | inr within ↦ rw within (refl, refl)
  ]

  update-IsFed :
      (s : Hash) (msg inp : List ℕ)
      → length inp < 256 ^ a.word_size
      → IsFed a s msg
      → IsFed a (update a s inp) (msg ++ inp)
  update-IsFed s msg inp h f =
      let m : ℕ = 256 ^ a.word_size in
      let u = update_lem a s inp (f.size) in
      let n = update-length s inp in
      let c = add_length-IsCounted a s (length inp) (f.counted) in
      record {
        absorbed =
            u.0 ∙ ap (λ t. absorb a t inp) (f.absorbed) ∙ sym (absorb-append a (start a) msg inp);
        size = u.1;
        counted = record { low = omega (arith, n.0, c.low); high = omega (arith, n.1, c.high) };
        total =
            ap₂ (λ (x y : ℕ). x + m * y) (n.0) (n.1)
            ∙ add_length_lem a s (length inp) (f.counted) h
            ∙ ap (λ (t : ℕ). (t + length inp) % (m * m)) (f.total)
            ∙ mod-add-mod (length msg) (m * m) (length inp)
            ∙ ap (λ (t : ℕ). t % (m * m)) (sym (length-append msg inp));
      }

  feed-IsFed :
      (s : Hash) (msg : List ℕ) (chunks : List (List ℕ))
      → AllShort a chunks
      → IsFed a s msg
      → IsFed a (feed a s chunks) (msg ++ join chunks)
  unfolding feed join
  feed-IsFed s msg [] h f = rw (append-nil msg) f
  feed-IsFed s msg (c ∷ cs) h f =
      let rest = feed-IsFed (update a s c) (msg ++ c) cs (h.1) (update-IsFed s msg c (h.0) f) in
      rw (sym (append_assoc msg c (join cs))) rest

  offset :
      (s : Hash) (msg : List ℕ) → IsFed a s msg → s.len0 % a.block_size ≡ length msg % a.block_size
  offset s msg f =
      let m : ℕ = 256 ^ a.word_size in
      let low : count a s % m ≡ s.len0 =
        add-mul-mod_self_left s.len0 m s.len1 ∙ mod-eq_of_lt (f.counted.low) in
      let word : s.len0 ≡ length msg % m =
        sym low ∙ ap (λ (t : ℕ). t % m) (f.total) ∙ mod-mod_mul (length msg) m m in
      ap (λ (t : ℕ). t % a.block_size) word
      ∙ ap (λ (t : ℕ). length msg % t % a.block_size) (a.block_divides)
      ∙ mod-mod_mul (length msg) (a.blocks) (a.block_size)

  footer :
      (s : Hash) (msg : List ℕ)
      → IsFed a s msg
      → length_bytes a s.len0 s.len1
        ≡ store a.endian
            (a.word_size + a.word_size)
            (8 * length msg % (256 ^ a.word_size * 256 ^ a.word_size))
  footer s msg f =
      let square : ℕ = 256 ^ a.word_size * 256 ^ a.word_size in
      length_bytes_lem a s.len0 s.len1 (f.counted.low)
      ∙ ap (store a.endian (a.word_size + a.word_size))
          (ap (λ (t : ℕ). 8 * t % square) (f.total) ∙ eight-mod (length msg) square)

  pad-hash :
      (s : Hash) (msg : List ℕ)
      → IsFed a s msg
      → (pad a s).hash ≡ (absorb a (start a) (padded a msg)).hash
  pad-hash s msg f =
      ap (λ t. t.hash)
        (pad_lem a s (f.size) (length-length_bytes a s.len0 s.len1 (f.counted.low))
          ∙ ap₂ (absorb a) (f.absorbed)
              (ap₂ (λ x y. fill_bytes a x ++ y) (offset s msg f) (footer s msg f))
          ∙ sym (absorb-append a (start a) msg _))

-- For a message in pieces, each shorter than the range of a word, `Reset`, an `Update` for each piece
-- and `GetDigest` with padding return the first `len` bytes of the hash that absorbing the padded message
-- byte by byte from the initial hash leaves.
pub digest_lem :
    (a : Algorithm) (chunks : List (List ℕ)) (len : ℕ)
    → AllShort a chunks
    → (get_digest a (feed a (reset a) chunks) len false).0
      ≡ take len (copy_out a.endian a.word_size (absorb a (start a) (padded a (join chunks))).hash)
unfolding get_digest
digest_lem a chunks len h =
    let f = feed-IsFed a (reset a) [] chunks h (reset-IsFed a) in
    ap (λ t. take len (copy_out a.endian a.word_size t))
      (pad-hash a (feed a (reset a) chunks) (join chunks) f)
