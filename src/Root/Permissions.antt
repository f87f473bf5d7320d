-- ===== src/Root/Permissions.antt =====
-- The permission bits that `mode & 0o022` of protocol_v3.rs asks for: write for group and others.
use omarchy_sync.Base.{arith, suc, zero, ℕ, ◌%◌, ◌/◌, refl, sym, ◌∙◌, ◌≡◌, ◌↔◌, ◌≤◌}
use Prim.Native.Nat.{bit_and, bit_and-bitwise, digits, min}

-- `bit_and` on a count of digits to go.
abbrev masked : ℕ → ℕ → ℕ → ℕ
masked n a b = digits (λ b. zero) min n a b

-- Masking gives 0 exactly if it does in the lowest digit, and in the others.
masked-low :
    (n a b : ℕ)
    → a ≤ n
    → masked n a b ≡ 0
    → (min (a % 2) (b % 2) ≡ 0) × ((m : ℕ) × (a / 2 ≤ m) × (masked m (a / 2) (b / 2) ≡ 0))
masked-low zero zero b h e = (omega arith, (0, omega arith, refl))
masked-low zero (suc a) b h e = absurd (omega arith)
masked-low (suc n) zero b h e = (omega arith, (0, omega arith, refl))
masked-low (suc n) (suc a) b h e = (omega arith, (n, omega arith, omega arith))

low-masked :
    (a b : ℕ)
    → min (a % 2) (b % 2) ≡ 0
    → ((m : ℕ) → a / 2 ≤ m → masked m (a / 2) (b / 2) ≡ 0)
    → (n : ℕ) → a ≤ n
    → masked n a b ≡ 0
low-masked a b e rest zero h = refl
low-masked zero b e rest (suc n) h = refl
low-masked (suc a) b e rest (suc n) h = omega (arith, rest n (omega arith), e)

masked-zero : (n a : ℕ) → masked n a 0 ≡ 0
masked-zero zero a = refl
masked-zero (suc n) zero = refl
masked-zero (suc n) (suc a) = omega (arith, masked-zero n (suc a / 2))

-- The digits of 0o022 are 0 1 0 0 1, lowest first.
pub bit_and_write_iff :
    (mode : ℕ) → (bit_and mode 0o022 ≡ 0) ↔ ((mode / 16 % 2 ≡ 0) × (mode / 2 % 2 ≡ 0))
bit_and_write_iff mode = (
  λ h.
      let (_, (n1, b1, h1)) =
        masked-low mode mode 18 (omega arith) (sym (bit_and-bitwise mode 18) ∙ h) in
      let (others, (n2, b2, h2)) = masked-low n1 (mode / 2) 9 b1 h1 in
      let (_, (n3, b3, h3)) = masked-low n2 (mode / 2 / 2) 4 b2 h2 in
      let (_, (n4, b4, h4)) = masked-low n3 (mode / 2 / 2 / 2) 2 b3 h3 in
      let (group, _) = masked-low n4 (mode / 2 / 2 / 2 / 2) 1 b4 h4 in (omega arith, omega arith),
  λ h.
      bit_and-bitwise mode 18
      ∙ low-masked mode 18 (omega arith)
          (low-masked (mode / 2) 9 (omega arith) (
            low-masked (mode / 2 / 2) 4 (omega arith) (
              low-masked (mode / 2 / 2 / 2) 2 (omega arith) (
                low-masked (mode / 2 / 2 / 2 / 2) 1 (omega arith)
                  (λ m b. masked-zero m (mode / 2 / 2 / 2 / 2 / 2))))))
          mode (omega arith),
)
