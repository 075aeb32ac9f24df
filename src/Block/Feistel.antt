-- ===== src/Block/Feistel.antt =====
-- What the Feistel ciphers share: two halves, of which one is masked by a function of the other.
use drew.Prelude.{ℕ, zero, suc, ◌+◌, ◌^◌, ◌<◌, ◌≡◌, refl, ap, ◌∙◌, bit_xor}
use drew.Prelude.Bits.{xor_cancel}
use drew.Prelude.Loops.{for_down}

pub record Halves : Type 0 where
  pub l : ℕ
  pub r : ℕ

-- `std::swap(l, r)`
unfoldable pub swap : Halves → Halves
swap s = record { l = s.r; r = s.l }

-- `l ^= g(r); std::swap(l, r);`
unfoldable pub step : (ℕ → ℕ) → Halves → Halves
step g s = record { l = s.r; r = bit_xor s.l (g s.r) }

-- Both halves are words.
pub record IsState (s : Halves) : Type 0 where
  pub l_word : s.l < 2 ^ 32
  pub r_word : s.r < 2 ^ 32

pub swap-IsState : (s : Halves) → IsState s → IsState (swap s)
unfolding swap
swap-IsState s h = record { l_word = h.r_word; r_word = h.l_word }

-- A step undoes itself between swaps.
pub step_undo : (g : ℕ → ℕ) (s : Halves) → step g (swap (step g s)) ≡ swap s
unfolding swap step
step_undo g s = λ i. record { l = s.r; r = xor_cancel s.l (g s.r) i }

-- A loop on swapped halves, when every round gives swapped halves.
pub for_down-swap :
    (body back : ℕ → Halves → Halves)
    → ((i : ℕ) (s : Halves) → body i (swap s) ≡ swap (back i s))
    → (n i : ℕ) (s : Halves) → for_down n i body (swap s) ≡ swap (for_down n i back s)
unfolding for_down
for_down-swap body back same zero i s = refl
for_down-swap body back same (suc n) i s =
    ap (body i) (for_down-swap body back same n (i + 1) s) ∙ same i (for_down n (i + 1) back s)
