-- ===== src/Cpu/Adder/Decimal.antt =====
-- DAA after an addition of packed decimal digits.
use native.Mathlib.Nat.{add-zero}
use mach_emu.Base.{
  ℕ, ◌+◌, ◌*◌, ◌/◌, ◌%◌, ◌<◌, ◌≡◌, refl, Bool, ltb, leb, ◌&&◌, ◌||◌, if◌then◌else◌, Bool-cases, inl,
  inr, arith, ◌∙◌,
}
use mach_emu.Bits.Laws.{to_ulong-of_ulong}
use mach_emu.Cpu.State.{Intel8080, carry_flag, aux_carry_flag, Reg, deref, value, ready}
use mach_emu.Cpu.Adder.{add_reg, daa}
use mach_emu.Cpu.Adder.Sums.{flag}

-- Two decimal digits in one byte.
abbrev pub packed : ℕ → ℕ
packed n = n / 10 * 16 + n % 10

-- The two adjustments of `Daa`, for an accumulator `x`.
abbrev low_adjustment : ℕ → Bool → ℕ
low_adjustment x aux = if ltb 9 (x % 16) || aux then 6 else 0

abbrev adjusts_high : ℕ → Bool → Bool
adjusts_high x carry = ltb 9 (x / 16) || carry || (ltb 8 (x / 16) && ltb 9 (x % 16))

abbrev adjusted : ℕ → Bool → Bool → ℕ
adjusted x carry aux = (x + low_adjustment x aux + (if adjusts_high x carry then 0x60 else 0)) % 256

adjusted-packed :
    (x m n : ℕ) (carry aux : Bool)
    → m < 100
    → n < 100
    → x ≡ (packed m + packed n) % 256
    → carry ≡ ltb 255 (packed m + packed n)
    → aux ≡ ltb 15 (packed m % 16 + packed n % 16)
    → (adjusted x carry aux ≡ packed ((m + n) % 100)) × (adjusts_high x carry ≡ leb 100 (m + n))
adjusted-packed x m n carry aux hm hn hx hc ha = ground arith

module _ {W : Type 0} (cpu : Intel8080) (w : W) where
  daa_lem :
      let cpu' = (daa (ready cpu w)).1.cpu in
      (value cpu'.a ≡ adjusted (value cpu.a) (flag carry_flag cpu) (flag aux_carry_flag cpu))
      × (flag carry_flag cpu' ≡ adjusts_high (value cpu.a) (flag carry_flag cpu))
  unfolding daa
  daa_lem = elim (Bool-cases (adjusts_high (value cpu.a) (flag carry_flag cpu))) [
    | inl high ↦ rw high (omega (arith, to_ulong-of_ulong), refl)
    | inr not_high ↦ rw not_high (omega (arith, to_ulong-of_ulong), ground arith)
  ]

module _ {W : Type 0} (cpu : Intel8080) (w : W) (r : Reg) (m n : ℕ) where
  -- Decimal addition: if the accumulator and a register hold two packed decimal digits each, then
  -- ADD followed by DAA leaves the two digits of their sum, and the carry flag is the hundred.
  pub daa-add :
      m < 100
      → n < 100
      → value cpu.a ≡ packed m
      → value (deref r cpu) ≡ packed n
      → let cpu' = (daa (add_reg r (ready cpu w)).1).1.cpu in
        (value cpu'.a ≡ packed ((m + n) % 100)) × (flag carry_flag cpu' ≡ leb 100 (m + n))
  unfolding add_reg
  daa-add hm hn ha hr =
      let cpu' = (add_reg r (ready cpu w)).1.cpu in
      let (digits, hundred) =
        adjusted-packed (value cpu'.a) m n (flag carry_flag cpu') (flag aux_carry_flag cpu') hm hn
          (omega (arith, to_ulong-of_ulong)) (rw (ha, hr, add-zero)) (rw (ha, hr, add-zero)) in
      ((daa_lem cpu' w).0 ∙ digits, (daa_lem cpu' w).1 ∙ hundred)
