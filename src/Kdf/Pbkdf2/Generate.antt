-- ===== src/Kdf/Pbkdf2/Generate.antt =====
-- `pbkdf_generate` as a whole: how many rounds, how many bytes of the last one, and what they give.
use native.Mathlib.Nat.{
  mod-lt, mod-eq_of_lt, div-add-mod, add-div_right, mul_comm, suc-mul, div-le_self,
}
use drew.Prelude.{
  ℕ, zero, suc, ◌+◌, ◌-◌, ◌*◌, ◌/◌, ◌%◌, ◌^◌, ◌≤◌, ◌<◌, ◌≡◌, refl, sym, ap, ap₂, ◌∙◌, false, ◌||◌,
  List, length, take, length-append, length-take, ◌==◌, arith,
}
use drew.Util.Rotate.{add_word, sub_word, sub_word_lem}
use drew.Mode.Status.{ok}
use drew.Kdf.Prf.{Prf, IsPrf}
use drew.Kdf.Pbkdf2.{Pbkdf, set_salt, set_count, blocks, generate}
use drew.Kdf.Pbkdf2.Spec.{piece, pieces}
use drew.Kdf.Pbkdf2.Derived.{blocks_lem, length-piece}

-- The whole blocks before the last round.
abbrev before_last : ℕ → ℕ → ℕ
before_last outlen size = (outlen - 1) / size

module _ (outlen size : ℕ) (some : 0 < outlen) (pos : 0 < size)
    (fits : outlen + size < 2 ^ 64) where
  split : before_last outlen size * size + (outlen - 1) % size ≡ outlen - 1
  split =
      ap (λ (t : ℕ). t + (outlen - 1) % size) (mul_comm (before_last outlen size) size)
      ∙ div-add-mod (outlen - 1) size

  rounds_lem : add_word 64 outlen (sub_word 64 size 1) / size ≡ suc (before_last outlen size)
  unfolding add_word
  rounds_lem =
      let one_less = sub_word_lem 64 size 1 (omega arith) (omega arith) in
      let wrap : (outlen + (size - 1)) % 2 ^ 64 ≡ outlen + (size - 1) =
        mod-eq_of_lt (omega arith) in
      let shift : outlen + (size - 1) ≡ outlen - 1 + size = omega arith in
      let one_more : before_last outlen size + 1 ≡ suc (before_last outlen size) = omega arith in
      ap (λ (t : ℕ). (outlen + t) % 2 ^ 64 / size) one_less
      ∙ ap (λ (t : ℕ). t / size) (wrap ∙ shift)
      ∙ add-div_right (outlen - 1) pos
      ∙ one_more

  last_lem :
      sub_word 64 outlen (sub_word 64 (suc (before_last outlen size)) 1 * size % 2 ^ 64)
      ≡ outlen - before_last outlen size * size
  last_lem =
      let small : before_last outlen size ≤ outlen - 1 = div-le_self (outlen - 1) size in
      let room : before_last outlen size * size ≤ outlen - 1 = omega (arith, split) in
      let one_less : sub_word 64 (suc (before_last outlen size)) 1 ≡ before_last outlen size =
        sub_word_lem 64 (suc (before_last outlen size)) 1 (omega arith) (omega arith)
        ∙ (omega arith) in
      ap (λ (t : ℕ). sub_word 64 outlen (t * size % 2 ^ 64)) one_less
      ∙ ap (sub_word 64 outlen) (mod-eq_of_lt (omega arith))
      ∙ sub_word_lem 64 outlen (before_last outlen size * size) (omega arith) (omega arith)

  -- The last round has at most a block left.
  last_fits : outlen - before_last outlen size * size ≤ size
  last_fits = omega (arith, split, mod-lt (outlen - 1) pos)

  total : before_last outlen size * size + (outlen - before_last outlen size * size) ≡ outlen
  total = omega (arith, split)

module _ {S : Type 0} (p : Prf S) (limit : ℕ) (IsKey : List ℕ → Type 0)
    (f : List ℕ → List ℕ → List ℕ) (w : IsPrf p limit IsKey f) (key : List ℕ) (k : IsKey key) where
  length-pieces :
      (salt : List ℕ) (count n i : ℕ)
      → length salt < 256
      → 260 ≤ limit
      → length (pieces (f key) salt count n i) ≡ n * p.size
  unfolding pieces
  length-pieces salt count zero i short room = omega arith
  length-pieces salt count (suc n) i short room = omega (
    arith,
    length-append (piece (f key) salt count i) (pieces (f key) salt count n (i + 1)),
    length-piece p limit IsKey f w key k salt count i short room,
    length-pieces salt count n (i + 1) short room,
    suc-mul n p.size,
  )

-- Over any function that keeps the contract, with a salt of any length, a count and an output length that
-- are not 0, and no wrap in the number of blocks: `pbkdf_generate` returns 0 and writes exactly `outlen` bytes, the first of the pieces of
-- `Spec` one after another, for the salt cut to its length modulo 256.
pub pbkdf_generate_lem :
    {S : Type 0} (p : Prf S) (limit : ℕ) (IsKey : List ℕ → Type 0) (f : List ℕ → List ℕ → List ℕ)
    (w : IsPrf p limit IsKey f) (c : Pbkdf S) (key salt : List ℕ) (count outlen : ℕ)
    → IsKey key
    → w.IsReady c.prf
    → c.prfsz ≡ p.size
    → 260 ≤ limit
    → 0 < count
    → 0 < outlen
    → outlen + p.size < 2 ^ 64
    → (let r = generate p outlen key (set_count count (set_salt salt c)) in
        (r.0 ≡ ok)
        × (r.1
            ≡ take outlen (
                pieces
                  (f key)
                  (take (length salt % 2 ^ 8) salt)
                  count
                  ((outlen - 1) / p.size + 1)
                  0))
        × (length r.1 ≡ outlen))
unfolding generate set_count set_salt
pbkdf_generate_lem {S = S} p limit IsKey f w c key salt count outlen k ready size room some_count
      some fits =
    let n : ℕ = before_last outlen p.size in
    let last : ℕ = outlen - n * p.size in
    let cut : length salt % 2 ^ 8 < 256 = mod-lt (length salt) (omega arith) in
    let salt' : List ℕ = take (length salt % 2 ^ 8) salt in
    let pos = w.size_some in
    let given = w.set_key-IsKeyed key (p.reset c.prf) k (w.reset-IsReady c.prf ready) in
    let go : (outlen == 0 || count == 0) ≡ false = ground arith in
    let c' = set_count count (set_salt salt c) in
    let start : S = p.set_key key (p.reset c.prf) in
    let out =
      blocks_lem p limit IsKey f w key k c' last n 0 start size cut room
        (last_fits outlen p.size some pos fits) given in
    let one : n + 1 ≡ suc n = omega arith in
    let rounds : add_word 64 outlen (sub_word 64 c.prfsz 1) / c.prfsz ≡ suc n =
      ap (λ m. add_word 64 outlen (sub_word 64 m 1) / m) size
      ∙ rounds_lem outlen p.size some pos fits in
    let r : sub_word 64 outlen
          (sub_word 64 (add_word 64 outlen (sub_word 64 c.prfsz 1) / c.prfsz) 1 * c.prfsz % 2 ^ 64)
        ≡ last =
      ap₂ (λ x y. sub_word 64 outlen (sub_word 64 x 1 * y % 2 ^ 64)) rounds size
      ∙ last_lem outlen p.size some pos fits in
    let bytes =
      ap₂ (λ x y. (blocks p c' x y 0 start).0) r rounds
      ∙ out.0
      ∙ ap₂ (λ x y. take x (pieces (f key) salt' count y 0)) (total outlen p.size some pos fits)
          (sym one) in
    let len =
      length-pieces p limit IsKey f w key k salt' count (n + 1) 0
        (omega (arith, length-take (length salt % 2 ^ 8) salt)) room in
    let enough : (n + 1) * p.size ≡ n * p.size + p.size =
      ap (λ (t : ℕ). t * p.size) one ∙ suc-mul n p.size in
    let size_out : length (take outlen (pieces (f key) salt' count (n + 1) 0)) ≡ outlen = omega (
      arith,
      len,
      enough,
      total outlen p.size some pos fits,
      last_fits outlen p.size some pos fits,
      length-take outlen (pieces (f key) salt' count (n + 1) 0),
    ) in
    rw go (refl, bytes, ap length bytes ∙ size_out)
