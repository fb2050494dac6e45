-- ===== src/Cpu/Transfer/Pairs.antt =====
-- 16-bit arithmetic on register pairs.
use mach_emu.Base.{ℕ, ◌+◌, ◌*◌, ◌/◌, ◌%◌, ◌<◌, ◌≡◌, refl, ◌∙◌, ltb, u16, arith}
use mach_emu.Bits.{Bitset, digit, of_ulong, to_ulong}
use mach_emu.Bits.Laws.{to_ulong-of_ulong, to_ulong-lt, of_ulong-eq}
use mach_emu.Cpu.State.{
  Intel8080, carry_flag, assign_flag, Reg, reg_b, reg_c, reg_d, reg_e, reg_h, reg_l, deref, uint16,
  value, ready,
}
use mach_emu.Cpu.Transfer.{inx, dcx, dad}
use mach_emu.Cpu.Adder.Sums.{flag}
use mach_emu.Cpu.Valid.{uint16-lt}
use mach_emu.Cpu.Logic.Rotates.{twice_on}

-- The pairs that the opcodes of INX, DCX and DAD name.
pub data Pair : Reg → Reg → Type 0 where
  bc : Pair reg_b reg_c
  de : Pair reg_d reg_e
  hl : Pair reg_h reg_l

abbrev pub pair : Reg → Reg → Intel8080 → ℕ
pair hi low cpu = uint16 (deref hi cpu) (deref low cpu)

sum_carry : (n : ℕ) → n < 131072 → digit (ltb 0xffff n) ≡ n / 65536
unfolding digit
sum_carry n h = ground arith

uint16-halves : (n : ℕ) → uint16 (of_ulong (n / 256 % 256)) (of_ulong (n % 256)) ≡ n % 65536
unfolding uint16
uint16-halves n = omega (arith, to_ulong-of_ulong)

-- The count `by`, and then the count `back`, on the halves of a pair.
abbrev counted : ℕ → Bitset → Bitset → ℕ
counted by hi low = u16 (uint16 hi low + by)

abbrev recounted : ℕ → ℕ → Bitset → Bitset → ℕ
recounted by back hi low =
    let n = counted by hi low in counted back (of_ulong (n / 256 % 256)) (of_ulong (n % 256))

recounted_lem :
    (by back : ℕ) (hi low : Bitset)
    → by + back ≡ 65536
    → recounted by back hi low ≡ value hi * 256 + value low
unfolding uint16
recounted_lem by back hi low h = omega (arith, to_ulong-of_ulong, to_ulong-lt)

restored_hi :
    (by back : ℕ) (hi low : Bitset)
    → by + back ≡ 65536
    → recounted by back hi low / 256 % 256 % 256 ≡ to_ulong hi
restored_hi by back hi low h = omega (arith, recounted_lem by back hi low h, to_ulong-lt)

restored_low :
    (by back : ℕ) (hi low : Bitset)
    → by + back ≡ 65536
    → recounted by back hi low % 256 % 256 ≡ to_ulong low
restored_low by back hi low h = omega (arith, recounted_lem by back hi low h, to_ulong-lt)

module _ {W : Type 0} (cpu : Intel8080) (w : W) where
  -- DAD: with the carry flag as a seventeenth bit, HL becomes the sum of HL and the operand, and
  -- no other flag changes.
  pub dad_sum :
      (hi low : Bitset)
      → let cpu' = (dad hi low (ready cpu w)).1.cpu in
        (pair reg_h reg_l cpu' + 65536 * digit (flag carry_flag cpu')
          ≡ pair reg_h reg_l cpu + uint16 hi low)
        × (cpu'.status ≡ assign_flag carry_flag (flag carry_flag cpu') cpu.status)
  unfolding dad
  dad_sum hi low =
      (omega (arith, uint16-halves, sum_carry, uint16-lt hi low, uint16-lt cpu.h cpu.l), refl)

  -- INX and DCX of BC, DE or HL count the pair up and down modulo 65536, and touch no flag; DCX
  -- undoes INX and INX undoes DCX, leaving all but the program counter as it was.
  pub count_pair :
      {hi low : Reg}
      → Pair hi low
      → (pair hi low (inx hi low (ready cpu w)).1.cpu ≡ u16 (pair hi low cpu + 1))
        × (pair hi low (dcx hi low (ready cpu w)).1.cpu ≡ u16 (pair hi low cpu + 65535))
        × ((inx hi low (ready cpu w)).1.cpu.status ≡ cpu.status)
        × ((dcx hi low (ready cpu w)).1.cpu.status ≡ cpu.status)
        × ((dcx hi low (inx hi low (ready cpu w)).1).1.cpu ≡ twice_on cpu)
        × ((inx hi low (dcx hi low (ready cpu w)).1).1.cpu ≡ twice_on cpu)
  unfolding inx dcx
  count_pair bc = (
    uint16-halves _ ∙ omega arith,
    uint16-halves _ ∙ omega arith,
    refl,
    refl,
    λ i. record (twice_on cpu) {
      b = of_ulong-eq _ cpu.b (restored_hi 1 65535 cpu.b cpu.c (omega arith)) i;
      c = of_ulong-eq _ cpu.c (restored_low 1 65535 cpu.b cpu.c (omega arith)) i;
    },
    λ i. record (twice_on cpu) {
      b = of_ulong-eq _ cpu.b (restored_hi 65535 1 cpu.b cpu.c (omega arith)) i;
      c = of_ulong-eq _ cpu.c (restored_low 65535 1 cpu.b cpu.c (omega arith)) i;
    },
  )
  count_pair de = (
    uint16-halves _ ∙ omega arith,
    uint16-halves _ ∙ omega arith,
    refl,
    refl,
    λ i. record (twice_on cpu) {
      d = of_ulong-eq _ cpu.d (restored_hi 1 65535 cpu.d cpu.e (omega arith)) i;
      e = of_ulong-eq _ cpu.e (restored_low 1 65535 cpu.d cpu.e (omega arith)) i;
    },
    λ i. record (twice_on cpu) {
      d = of_ulong-eq _ cpu.d (restored_hi 65535 1 cpu.d cpu.e (omega arith)) i;
      e = of_ulong-eq _ cpu.e (restored_low 65535 1 cpu.d cpu.e (omega arith)) i;
    },
  )
  count_pair hl = (
    uint16-halves _ ∙ omega arith,
    uint16-halves _ ∙ omega arith,
    refl,
    refl,
    λ i. record (twice_on cpu) {
      h = of_ulong-eq _ cpu.h (restored_hi 1 65535 cpu.h cpu.l (omega arith)) i;
      l = of_ulong-eq _ cpu.l (restored_low 1 65535 cpu.h cpu.l (omega arith)) i;
    },
    λ i. record (twice_on cpu) {
      h = of_ulong-eq _ cpu.h (restored_hi 65535 1 cpu.h cpu.l (omega arith)) i;
      l = of_ulong-eq _ cpu.l (restored_low 65535 1 cpu.h cpu.l (omega arith)) i;
    },
  )
