-- ===== src/Util/Endian/Laws.antt =====
-- Reading and writing words are inverse in either byte order, for one word and for arrays.
use native.Mathlib.Nat.{pow-suc, one-le-pow}
use mathlib.Core.List.{reverse, reverse-reverse, reverse-cons}
use drew.Prelude.{
  ℕ, zero, suc, ◌+◌, ◌*◌, ◌/◌, ◌^◌, ◌<◌, ◌≡◌, refl, ap, ap₂, ◌∙◌, List, [], ◌∷◌, ◌++◌, length, take,
  drop, length-append, arith,
}
use drew.Util.Endian.{Endianness, little, big, host_load, host_store, load, store, AllBelow}

length-host_store : (k x : ℕ) → length (host_store k x) ≡ k
unfolding host_store
length-host_store zero x = refl
length-host_store (suc k) x = ap suc (length-host_store k (x / 256))

host_store-AllBelow : (k x : ℕ) → AllBelow 256 (host_store k x)
unfolding host_store
host_store-AllBelow zero x = tt
host_store-AllBelow (suc k) x = (omega arith, host_store-AllBelow k (x / 256))

host_load-host_store : (k x : ℕ) → x < 256 ^ k → host_load k (host_store k x) ≡ x
unfolding host_load host_store
host_load-host_store zero x h = omega arith
host_load-host_store (suc k) x h =
    let e = pow-suc 256 k in omega (arith, host_load-host_store k (x / 256) (omega arith))

host_store-host_load :
    (k : ℕ) (bs : List ℕ) → length bs ≡ k → AllBelow 256 bs → host_store k (host_load k bs) ≡ bs
unfolding host_load host_store
host_store-host_load zero [] e h = refl
host_store-host_load zero (b ∷ bs) e h = absurd (omega arith)
host_store-host_load (suc k) [] e h = absurd (omega arith)
host_store-host_load (suc k) (b ∷ bs) e h =
    ap₂ ◌∷◌ (omega arith) (ap (host_store k) low ∙ host_store-host_load k bs (omega arith) (h.1))
  where
    low : (b + 256 * host_load k bs) / 256 ≡ host_load k bs
    low = omega arith

pub host_load-lt : (k : ℕ) (bs : List ℕ) → AllBelow 256 bs → host_load k bs < 256 ^ k
unfolding host_load
host_load-lt zero bs h = omega arith
host_load-lt (suc k) [] h = one-le-pow (suc k) 256 (omega arith)
host_load-lt (suc k) (b ∷ bs) h = let e = pow-suc 256 k in omega (arith, host_load-lt k bs h.1)

module _ (m : ℕ) where
  pub AllBelow-append : (xs ys : List ℕ) → AllBelow m xs → AllBelow m ys → AllBelow m (xs ++ ys)
  AllBelow-append [] ys p q = q
  AllBelow-append (x ∷ xs) ys p q = (p.0, AllBelow-append xs ys (p.1) q)

  pub AllBelow-take : (n : ℕ) (xs : List ℕ) → AllBelow m xs → AllBelow m (take n xs)
  AllBelow-take zero xs p = tt
  AllBelow-take (suc n) [] p = tt
  AllBelow-take (suc n) (x ∷ xs) p = (p.0, AllBelow-take n xs (p.1))

  pub AllBelow-drop : (n : ℕ) (xs : List ℕ) → AllBelow m xs → AllBelow m (drop n xs)
  AllBelow-drop zero xs p = p
  AllBelow-drop (suc n) [] p = tt
  AllBelow-drop (suc n) (x ∷ xs) p = AllBelow-drop n xs (p.1)

  pub AllBelow-reverse : (xs : List ℕ) → AllBelow m xs → AllBelow m (reverse xs)
  AllBelow-reverse [] p = tt
  AllBelow-reverse (x ∷ xs) p =
      rw (reverse-cons x xs)
        (AllBelow-append (reverse xs) (x ∷ []) (AllBelow-reverse xs (p.1)) (p.0, tt))

pub length-reverse : (xs : List ℕ) → length (reverse xs) ≡ length xs
length-reverse [] = refl
length-reverse (x ∷ xs) =
    rw (reverse-cons x xs) (omega (arith, length-append (reverse xs) (x ∷ []), length-reverse xs))

pub take-append_self : (n : ℕ) (xs ys : List ℕ) → length xs ≡ n → take n (xs ++ ys) ≡ xs
take-append_self zero [] ys e = refl
take-append_self zero (x ∷ xs) ys e = absurd (omega arith)
take-append_self (suc n) [] ys e = absurd (omega arith)
take-append_self (suc n) (x ∷ xs) ys e = ap (λ t. x ∷ t) (take-append_self n xs ys (omega arith))

pub take-whole : (n : ℕ) (xs : List ℕ) → length xs ≡ n → take n xs ≡ xs
take-whole zero [] e = refl
take-whole zero (x ∷ xs) e = absurd (omega arith)
take-whole (suc n) [] e = refl
take-whole (suc n) (x ∷ xs) e = ap (λ t. x ∷ t) (take-whole n xs (omega arith))

pub drop-append_self : (n : ℕ) (xs ys : List ℕ) → length xs ≡ n → drop n (xs ++ ys) ≡ ys
drop-append_self zero [] ys e = refl
drop-append_self zero (x ∷ xs) ys e = absurd (omega arith)
drop-append_self (suc n) [] ys e = absurd (omega arith)
drop-append_self (suc n) (x ∷ xs) ys e = drop-append_self n xs ys (omega arith)

pub length-store : (e : Endianness) (k x : ℕ) → length (store e k x) ≡ k
unfolding store
length-store little k x = length-host_store k x
length-store big k x = length-reverse (host_store k x) ∙ length-host_store k x

pub store-AllBelow : (e : Endianness) (k x : ℕ) → AllBelow 256 (store e k x)
unfolding store
store-AllBelow little k x = host_store-AllBelow k x
store-AllBelow big k x = AllBelow-reverse 256 (host_store k x) (host_store-AllBelow k x)

-- What is stored is read back, whatever bytes follow.
pub load-store :
    (e : Endianness) (k x : ℕ) (rest : List ℕ) → x < 256 ^ k → load e k (store e k x ++ rest) ≡ x
unfolding load store
load-store little k x rest h =
    rw (take-append_self k (host_store k x) rest (length-host_store k x))
      (host_load-host_store k x h)
load-store big k x rest h =
    rw
      (
        take-append_self k (reverse (host_store k x)) rest
            (length-reverse (host_store k x) ∙ length-host_store k x),
        reverse-reverse (host_store k x),
      )
      (host_load-host_store k x h)

pub store-load :
    (e : Endianness) (k : ℕ) (bs : List ℕ)
    → length (take k bs) ≡ k
    → AllBelow 256 (take k bs)
    → store e k (load e k bs) ≡ take k bs
unfolding load store
store-load little k bs p q = host_store-host_load k (take k bs) p q
store-load big k bs p q =
    ap reverse (
      host_store-host_load k (reverse (take k bs)) (length-reverse (take k bs) ∙ p)
        (AllBelow-reverse 256 (take k bs) q))
    ∙ reverse-reverse (take k bs)

pub load-lt : (e : Endianness) (k : ℕ) (bs : List ℕ) → AllBelow 256 bs → load e k bs < 256 ^ k
unfolding load
load-lt little k bs h = host_load-lt k (take k bs) (AllBelow-take 256 k bs h)
load-lt big k bs h =
    host_load-lt k (reverse (take k bs))
      (AllBelow-reverse 256 (take k bs) (AllBelow-take 256 k bs h))
