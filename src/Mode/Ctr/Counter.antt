-- ===== src/Mode/Ctr/Counter.antt =====
-- `increment_counter` adds one to the counter read as a big-endian number.
use native.Mathlib.Nat.{pow-suc, mod-eq_of_lt, mod_self}
use mathlib.Core.Path.{subst}
use mathlib.Core.List.{reverse, reverse-reverse}
use drew.Prelude.{
  ℕ, zero, suc, ◌+◌, ◌*◌, ◌%◌, ◌^◌, ◌<◌, ◌≡◌, ◌≢◌, ◌⊎◌, refl, sym, ap, ◌∙◌, inl, inr, List, [], ◌∷◌,
  length, ◌==◌, Bool-cases, arith,
}
use drew.Util.Endian.{big, host_load, load, store, AllBelow, IsBlock}
use drew.Util.Endian.Laws.{AllBelow-reverse, length-reverse, host_load-lt, take-whole, store-load}
use drew.Mode.Ctr.{ripple, increment_counter}

length-ripple : (bs : List ℕ) → length (ripple bs) ≡ length bs
unfolding ripple
length-ripple [] = refl
length-ripple (b ∷ bs) = ground (arith, length-ripple bs)

pub length-increment_counter : (bs : List ℕ) → length (increment_counter bs) ≡ length bs
unfolding increment_counter
length-increment_counter bs =
    length-reverse (ripple (reverse bs)) ∙ length-ripple (reverse bs) ∙ length-reverse bs

ripple-AllBelow : (bs : List ℕ) → AllBelow 256 bs → AllBelow 256 (ripple bs)
unfolding ripple
ripple-AllBelow [] h = tt
ripple-AllBelow (b ∷ bs) h = elim (Bool-cases ((b + 1) % 2 ^ 8 == 0)) [
  | inl wraps ↦ rw wraps (omega arith, ripple-AllBelow bs (h.1))
  | inr stays ↦ rw stays (omega arith, h.1)
]

-- The two ways in which a byte takes the addition of one.
carried :
    (b v m m' : ℕ)
    → b < 256
    → (b + 1) % 2 ^ 8 ≡ 0
    → v < m
    → m' ≡ m * 256
    → {r : ℕ} → r ≡ (v + 1) % m
    → (b + 1) % 2 ^ 8 + 256 * r ≡ (b + 256 * v + 1) % m'
carried b v m m' h z l e {r = r} q = elim (below_or_end v m l) [
  | inl below ↦
      let r_eq : r ≡ v + 1 = q ∙ mod-eq_of_lt below in
      let big : (b + 256 * v + 1) % m' ≡ b + 256 * v + 1 = mod-eq_of_lt (omega arith) in omega arith
  | inr at_end ↦
      let r_eq : r ≡ 0 = q ∙ ap (λ (t : ℕ). t % m) at_end ∙ mod_self m in
      let full : b + 256 * v + 1 ≡ m' = omega arith in
      let big : (b + 256 * v + 1) % m' ≡ 0 = ap (λ (t : ℕ). t % m') full ∙ mod_self m' in
      omega arith
]
  where
    below_or_end : (v m : ℕ) → v < m → (v + 1 < m) ⊎ (v + 1 ≡ m)
    below_or_end v m l = omega arith

kept :
    (b v m m' : ℕ)
    → b < 256
    → (b + 1) % 2 ^ 8 ≢ 0
    → v < m
    → m' ≡ m * 256
    → (b + 1) % 2 ^ 8 + 256 * v ≡ (b + 256 * v + 1) % m'
kept b v m m' h z l e =
    let big : (b + 256 * v + 1) % m' ≡ b + 256 * v + 1 = mod-eq_of_lt (omega arith) in omega arith

ripple_value :
    (n : ℕ) (bs : List ℕ)
    → length bs ≡ n
    → AllBelow 256 bs
    → host_load n (ripple bs) ≡ (host_load n bs + 1) % 256 ^ n
unfolding ripple host_load
ripple_value zero bs e h = omega arith
ripple_value (suc n) [] e h = absurd (omega arith)
ripple_value (suc n) (b ∷ bs) e h =
    let pow = pow-suc 256 n in
    let low = host_load-lt n bs (h.1) in
    elim (Bool-cases ((b + 1) % 2 ^ 8 == 0)) [
      | inl wraps ↦ rw wraps (
          carried b (host_load n bs) (256 ^ n) (256 ^ suc n) (h.0) (ground arith) low pow
            (ripple_value n bs (omega arith) (h.1)))
      | inr stays ↦
          rw stays (kept b (host_load n bs) (256 ^ n) (256 ^ suc n) (h.0) (ground arith) low pow)
    ]

-- The counter after a block is the counter before it plus one, modulo the number of its values: the
-- bytes are a big-endian number of `n` bytes.
pub increment_counter_value :
    (n : ℕ) (ctr : List ℕ)
    → IsBlock n ctr
    → load big n (increment_counter ctr) ≡ (load big n ctr + 1) % 256 ^ n
unfolding increment_counter load
increment_counter_value n ctr b =
    rw
      (
        take-whole n (reverse (ripple (reverse ctr))) (length-increment_counter ctr ∙ b.size),
        take-whole n ctr (b.size),
        reverse-reverse (ripple (reverse ctr)),
      )
      (ripple_value n (reverse ctr) (length-reverse ctr ∙ b.size)
        (AllBelow-reverse 256 ctr (b.below)))

pub increment_counter-IsBlock :
    (n : ℕ) (ctr : List ℕ) → IsBlock n ctr → IsBlock n (increment_counter ctr)
unfolding increment_counter
increment_counter-IsBlock n ctr b = record {
  size = length-increment_counter ctr ∙ b.size;
  below =
      AllBelow-reverse 256 (ripple (reverse ctr))
        (ripple-AllBelow (reverse ctr) (AllBelow-reverse 256 ctr (b.below)));
}

-- The bytes of the counter plus one.
pub increment_counter_lem :
    (n : ℕ) (ctr : List ℕ)
    → IsBlock n ctr
    → increment_counter ctr ≡ store big n ((load big n ctr + 1) % 256 ^ n)
increment_counter_lem n ctr b =
    let next = increment_counter-IsBlock n ctr b in
    let whole = take-whole n (increment_counter ctr) (next.size) in
    sym (
      ap (store big n) (sym (increment_counter_value n ctr b))
      ∙ store-load big n (increment_counter ctr) (ap length whole ∙ next.size)
          (subst (AllBelow 256) (sym whole) (next.below))
      ∙ whole)
