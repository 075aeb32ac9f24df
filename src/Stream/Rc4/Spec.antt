-- ===== src/Stream/Rc4/Spec.antt =====
-- RC4 as it is published: indices are bytes, and each value is taken from an array of bytes.
use drew.Prelude.{ℕ, zero, suc, ◌+◌, ◌%◌, List, [], ◌∷◌, length, get_or, set}
use drew.Prelude.Loops.{for_up}

pub record Generator : Type 0 where
  pub s : List ℕ
  pub i : ℕ
  pub j : ℕ

unfoldable pub exchange : List ℕ → ℕ → ℕ → List ℕ
exchange s a b = set (set s a (get_or s b 0)) b (get_or s a 0)

-- The array with its index `j`, at index `i` of the key schedule.
pub record Schedule : Type 0 where
  pub s : List ℕ
  pub j : ℕ

unfoldable pub mix : List ℕ → ℕ → Schedule → Schedule
mix key i t =
    let j = (t.j + get_or t.s i 0 + get_or key (i % length key) 0) % 256 in
    record { s = exchange t.s i j; j = j }

unfoldable pub upto : ℕ → ℕ → List ℕ
upto zero i = []
upto (suc n) i = i ∷ upto n (i + 1)

unfoldable pub keyed : List ℕ → Generator
keyed key = record {
  s = (for_up 256 0 (mix key) (record { s = upto 256 0; j = 0 })).s;
  i = 0;
  j = 0;
}

unfoldable pub next : Generator → ℕ × Generator
next t =
    let i = (t.i + 1) % 256 in
    let j = (t.j + get_or t.s i 0) % 256 in
    let s = exchange t.s i j in
    (get_or s ((get_or s i 0 + get_or s j 0) % 256) 0 % 256, record { s = s; i = i; j = j })

-- The next `n` bytes.
unfoldable pub bytes : ℕ → Generator → List ℕ
bytes zero t = []
bytes (suc n) t = (next t).0 ∷ bytes n (next t).1
