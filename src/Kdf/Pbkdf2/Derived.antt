-- ===== src/Kdf/Pbkdf2/Derived.antt =====
-- What `pbkdf_generate` derives is what RFC 2898 says, for every length and any salt and count.
use native.Mathlib.Nat.{suc-mul}
use mathlib.Core.Path.{subst}
use mathlib.Core.List.{append-nil}
use drew.Prelude.{
  ℕ, zero, suc, ◌+◌, ◌-◌, ◌*◌, ◌≤◌, ◌<◌, ◌≡◌, refl, sym, ap, ap₂, ◌∙◌, inl, inr, false, List, [],
  ◌∷◌, ◌++◌, length, take, length-append, length-take, ◌==◌, if◌then◌else◌, Bool-cases, arith,
}
use drew.Util.Endian.{big, store}
use drew.Util.Endian.Laws.{length-store, take-whole}
use drew.Util.Keystream.{xor_bytes}
use drew.Util.Keystream.Bytes.{length-xor_bytes}
use drew.Kdf.Prf.{Prf, IsPrf}
use drew.Kdf.Pbkdf2.{Pbkdf, iterate, block, blocks}
use drew.Kdf.Pbkdf2.Spec.{nth, sum, piece, pieces}

take-append_more :
    (n m : ℕ) (xs ys : List ℕ) → length xs ≡ n → take (n + m) (xs ++ ys) ≡ xs ++ take m ys
take-append_more zero m [] ys h = let e : 0 + m ≡ m = omega arith in ap (λ t. take t ys) e
take-append_more zero m (x ∷ xs) ys h = absurd (omega arith)
take-append_more (suc n) m [] ys h = absurd (omega arith)
take-append_more (suc n) m (x ∷ xs) ys h =
    let e : suc n + m ≡ suc (n + m) = omega arith in
    ap (λ t. take t (x ∷ xs ++ ys)) e ∙ ap (λ t. x ∷ t) (take-append_more n m xs ys (omega arith))

last_bytes : (r m : ℕ) (t : List ℕ) → length t ≡ m → (if r == m then t else take r t) ≡ take r t
last_bytes r m t h = elim (Bool-cases (r == m)) [
  | inl whole ↦ rw whole (sym (take-whole r t (ground arith)))
  | inr less ↦ rw less refl
]

module _ {S : Type 0} (p : Prf S) (limit : ℕ) (IsKey : List ℕ → Type 0)
    (f : List ℕ → List ℕ → List ℕ) (w : IsPrf p limit IsKey f) (key : List ℕ) (k : IsKey key) where
  length-nth : (n : ℕ) (u : List ℕ) → length u ≡ p.size → length (nth (f key) n u) ≡ p.size
  unfolding nth
  length-nth zero u h = h
  length-nth (suc n) u h =
      let short = w.size_short in
      let size = length-nth n u h in w.length-f key (nth (f key) n u) k (omega arith)

  length-sum : (n : ℕ) (u : List ℕ) → length u ≡ p.size → length (sum (f key) n u) ≡ p.size
  unfolding sum
  length-sum zero u h = h
  length-sum (suc n) u h =
      length-xor_bytes (sum (f key) n u) (nth (f key) (suc n) u)
        (length-sum n u h ∙ sym (length-nth (suc n) u h))
      ∙ length-nth (suc n) u h

  iterate_lem :
      (n m : ℕ) (s : S) (u : List ℕ)
      → length u ≡ p.size
      → w.IsKeyed key s
      → (let r = iterate p p.size n s (sum (f key) m u) (nth (f key) m u) in
          (r.0 ≡ sum (f key) (m + n) u) × w.IsKeyed key r.1)
  unfolding iterate nth sum
  iterate_lem zero m s u h ks =
      let e : m + 0 ≡ m = omega arith in (ap (λ t. sum (f key) t u) (sym e), ks)
  iterate_lem (suc n) m s u h ks =
      let short = w.size_short in
      let size = length-nth m u h in
      let e : m + suc n ≡ suc m + n = omega arith in
      let made = w.generate_lem key (nth (f key) m u) s k ks (omega arith) in
      let kept = w.generate-IsKeyed key (nth (f key) m u) s k ks (omega arith) in
      let s' : S = (p.generate p.size (nth (f key) m u) (p.reset s)).2 in
      let E : iterate p p.size (suc n) s (sum (f key) m u) (nth (f key) m u)
          ≡ iterate p p.size n s' (sum (f key) (suc m) u) (nth (f key) (suc m) u) =
        ap (λ b. iterate p p.size n s' (xor_bytes (sum (f key) m u) b) b) made in
      let ih = iterate_lem n (suc m) s' u h kept in
      (
        ap (λ r. r.0) E ∙ ih.0 ∙ ap (λ t. sum (f key) t u) (sym e),
        subst (λ r. w.IsKeyed key r.1) (sym E) (ih.1),
      )

  -- One block, from a context that has been given the key.
  block_lem :
      (c : Pbkdf S) (i : ℕ) (s : S)
      → c.prfsz ≡ p.size
      → c.saltsz < 256
      → 260 ≤ limit
      → w.IsKeyed key s
      → (let r = block p c i s in
          (r.0 ≡ piece (f key) (take c.saltsz c.salt) c.count i) × w.IsKeyed key r.1)
  unfolding block piece sum nth
  block_lem c i s n salt room ks =
      let msg : List ℕ = take c.saltsz c.salt ++ store big 4 (i + 1) in
      let short : length msg < limit = omega (
        arith,
        length-append (take c.saltsz c.salt) (store big 4 (i + 1)),
        length-take c.saltsz c.salt,
        length-store big 4 (i + 1),
      ) in
      let made = w.generate_lem key msg s k ks short in
      let kept = w.generate-IsKeyed key msg s k ks short in
      let s' : S = (p.generate p.size msg (p.reset s)).2 in
      let E : block p c i s ≡ iterate p p.size (c.count - 1) s' (f key msg) (f key msg) =
        ap (λ m. let r = p.generate m msg (p.reset s) in iterate p m (c.count - 1) r.2 r.1 r.1) n
        ∙ ap (λ b. iterate p p.size (c.count - 1) s' b b) made in
      let r = iterate_lem (c.count - 1) 0 s' (f key msg) (w.length-f key msg k short) kept in
      let e : 0 + (c.count - 1) ≡ c.count - 1 = omega arith in
      (
        ap (λ r. r.0) E ∙ r.0 ∙ ap (λ t. sum (f key) t (f key msg)) e,
        subst (λ r. w.IsKeyed key r.1) (sym E) (r.1),
      )

  pub length-piece :
      (salt : List ℕ) (count i : ℕ)
      → length salt < 256
      → 260 ≤ limit
      → length (piece (f key) salt count i) ≡ p.size
  unfolding piece
  length-piece salt count i short room =
      let msg : List ℕ = salt ++ store big 4 (i + 1) in
      length-sum (count - 1) (f key msg) (
        w.length-f key msg k
          (omega (arith, length-append salt (store big 4 (i + 1)), length-store big 4 (i + 1))))

  -- The rounds from round `i` on, of which the last one gives `r` bytes.
  pub blocks_lem :
      (c : Pbkdf S) (r n i : ℕ) (s : S)
      → c.prfsz ≡ p.size
      → c.saltsz < 256
      → 260 ≤ limit
      → r ≤ p.size
      → w.IsKeyed key s
      → (let b = blocks p c r (suc n) i s in
          (b.0 ≡ take (n * p.size + r) (pieces (f key) (take c.saltsz c.salt) c.count (suc n) i))
          × w.IsKeyed key b.1)
  unfolding blocks pieces
  blocks_lem c r zero i s size salt room last ks =
      let (b, kept) = block_lem c i s size salt room ks in
      let t : List ℕ = piece (f key) (take c.saltsz c.salt) c.count i in
      let short : length (take c.saltsz c.salt) < 256 =
        omega (arith, length-take c.saltsz c.salt) in
      let len : length t ≡ p.size = length-piece (take c.saltsz c.salt) c.count i short room in
      let e : 0 * p.size + r ≡ r = omega arith in
      (
        append-nil (if r == c.prfsz then (block p c i s).0 else take r (block p c i s).0)
            ∙ ap (λ x. if r == c.prfsz then x else take r x) b
            ∙ last_bytes r c.prfsz t (len ∙ sym size)
            ∙ ap₂ take (sym e) (sym (append-nil t)),
        kept,
      )
  blocks_lem c r (suc n) i s size salt room last ks =
      let (b, kept) = block_lem c i s size salt room ks in
      let t : List ℕ = piece (f key) (take c.saltsz c.salt) c.count i in
      let short : length (take c.saltsz c.salt) < 256 =
        omega (arith, length-take c.saltsz c.salt) in
      let len : length t ≡ p.size = length-piece (take c.saltsz c.salt) c.count i short room in
      let (rest, kept') = blocks_lem c r n (i + 1) (block p c i s).1 size salt room last kept in
      let more : (suc n == 0) ≡ false = ground arith in
      let e : suc n * p.size + r ≡ p.size + (n * p.size + r) = omega (arith, suc-mul n p.size) in
      let tail : List ℕ = pieces (f key) (take c.saltsz c.salt) c.count (suc n) (i + 1) in
      (
        ap
              (λ z.
                (if z
                  then if r == c.prfsz then (block p c i s).0 else take r (block p c i s).0
                  else (block p c i s).0)
                ++ (blocks p c r (suc n) (i + 1) (block p c i s).1).0)
              more
            ∙ ap₂ (λ x y. x ++ y) b rest
            ∙ sym (take-append_more p.size (n * p.size + r) t tail len)
            ∙ ap (λ m. take m (t ++ tail)) (sym e),
        kept',
      )
