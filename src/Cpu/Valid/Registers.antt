-- ===== src/Cpu/Valid/Registers.antt =====
-- The calls that stay within the cpu complete: the adder, the logic unit, moves and pairs.
use mach_emu.Base.{◌≡◌, refl, true, arith}
use mach_emu.Bits.{Bitset}
use mach_emu.Cpu.State.{Intel8080, Reg, Process, ready}
use mach_emu.Cpu.Adder
use mach_emu.Cpu.Logic
use mach_emu.Cpu.Transfer
use mach_emu.Cpu.Control
use mach_emu.Cpu.Decode.{Alu}
use mach_emu.Cpu.Execute.{alu_reg}
use mach_emu.Cpu.Valid.{
  IsValid, Completes, is_plain, assign_reg-IsValid, next_pc-IsValid, uint16-lt,
}

module _ {W : Type 0} ⦃p : Process W⦄ (cpu : Intel8080) (w : W) (h : IsValid cpu) where
  pub rlc-Completes : Completes (Logic.rlc (ready cpu w))
  unfolding Logic.rlc
  rlc-Completes = (refl, ground arith, omega arith, omega arith)

  pub rrc-Completes : Completes (Logic.rrc (ready cpu w))
  unfolding Logic.rrc
  rrc-Completes = (refl, ground arith, omega arith, omega arith)

  pub ral-Completes : Completes (Logic.ral (ready cpu w))
  unfolding Logic.ral
  ral-Completes = (refl, ground arith, omega arith, omega arith)

  pub rar-Completes : Completes (Logic.rar (ready cpu w))
  unfolding Logic.rar
  rar-Completes = (refl, ground arith, omega arith, omega arith)

  pub cma-Completes : Completes (Logic.cma (ready cpu w))
  unfolding Logic.cma
  cma-Completes = (refl, ground arith, omega arith, omega arith)

  pub stc-Completes : Completes (Logic.stc (ready cpu w))
  unfolding Logic.stc
  stc-Completes = (refl, ground arith, omega arith, omega arith)

  pub cmc-Completes : Completes (Logic.cmc (ready cpu w))
  unfolding Logic.cmc
  cmc-Completes = (refl, ground arith, omega arith, omega arith)

  pub inx_sp-Completes : Completes (Transfer.inx_sp (ready cpu w))
  unfolding Transfer.inx_sp
  inx_sp-Completes = (refl, ground arith, omega arith, omega arith)

  pub dcx_sp-Completes : Completes (Transfer.dcx_sp (ready cpu w))
  unfolding Transfer.dcx_sp
  dcx_sp-Completes = (refl, ground arith, omega arith, omega arith)

  pub dad_sp-Completes : Completes (Transfer.dad_sp (ready cpu w))
  unfolding Transfer.dad_sp
  dad_sp-Completes = (refl, ground arith, omega arith, omega arith)

  pub xchg-Completes : Completes (Transfer.xchg (ready cpu w))
  unfolding Transfer.xchg
  xchg-Completes = (refl, ground arith, omega arith, omega arith)

  pub sphl-Completes : Completes (Transfer.sphl (ready cpu w))
  unfolding Transfer.sphl
  sphl-Completes = (refl, ground (arith, uint16-lt cpu.h cpu.l), omega arith, omega arith)

  pub nop-Completes : Completes (Control.nop (ready cpu w))
  unfolding Control.nop
  nop-Completes = (refl, ground arith, omega arith, omega arith)

  pub pchl-Completes : Completes (Control.pchl (ready cpu w))
  unfolding Control.pchl
  pchl-Completes = (refl, ground (arith, uint16-lt cpu.h cpu.l), omega arith, omega arith)

  pub di-Completes : Completes (Control.di (ready cpu w))
  unfolding Control.di
  di-Completes = (refl, ground arith, omega arith, omega arith)

  pub ei-Completes : Completes (Control.ei (ready cpu w))
  unfolding Control.ei
  ei-Completes = (refl, ground arith, omega arith, omega arith)

  pub daa-Completes : Completes (Adder.daa (ready cpu w))
  unfolding Adder.daa
  daa-Completes = (ground arith, ground arith, ground arith, ground arith)

  pub inr_reg-Completes : (r : Reg) → is_plain r ≡ true → Completes (Adder.inr_reg r (ready cpu w))
  unfolding Adder.inr_reg
  inr_reg-Completes r plain =
      (refl, assign_reg-IsValid r _ _ plain (ground arith), omega arith, omega arith)

  pub dcr_reg-Completes : (r : Reg) → is_plain r ≡ true → Completes (Adder.dcr_reg r (ready cpu w))
  unfolding Adder.dcr_reg
  dcr_reg-Completes r plain =
      (refl, assign_reg-IsValid r _ _ plain (ground arith), omega arith, omega arith)

  pub mov-Completes : (r q : Reg) → is_plain r ≡ true → Completes (Transfer.mov r q (ready cpu w))
  unfolding Transfer.mov
  mov-Completes r q plain =
      (refl, next_pc-IsValid _ (assign_reg-IsValid r _ _ plain h), omega arith, omega arith)

  pub dad-Completes : (hi low : Bitset) → Completes (Transfer.dad hi low (ready cpu w))
  unfolding Transfer.dad
  dad-Completes hi low = (refl, ground arith, omega arith, omega arith)

  pub inx-Completes :
      (hi low : Reg)
      → is_plain hi ≡ true
      → is_plain low ≡ true
      → Completes (Transfer.inx hi low (ready cpu w))
  unfolding Transfer.inx
  inx-Completes hi low ph pl = (
    refl,
    next_pc-IsValid _ (assign_reg-IsValid low _ _ pl (assign_reg-IsValid hi _ _ ph h)),
    omega arith,
    omega arith,
  )

  pub dcx-Completes :
      (hi low : Reg)
      → is_plain hi ≡ true
      → is_plain low ≡ true
      → Completes (Transfer.dcx hi low (ready cpu w))
  unfolding Transfer.dcx
  dcx-Completes hi low ph pl = (
    refl,
    next_pc-IsValid _ (assign_reg-IsValid low _ _ pl (assign_reg-IsValid hi _ _ ph h)),
    omega arith,
    omega arith,
  )

  pub alu_reg-Completes : (op : Alu) (r : Reg) → Completes (alu_reg op r (ready cpu w))
  unfolding alu_reg Adder.add_reg Adder.adc_reg Adder.sub_reg Adder.sbb_reg Adder.cmp_reg
      Logic.ana_reg Logic.xra_reg Logic.ora_reg
  alu_reg-Completes Alu.add r = (refl, ground arith, omega arith, omega arith)
  alu_reg-Completes Alu.adc r = (refl, ground arith, omega arith, omega arith)
  alu_reg-Completes Alu.sub r = (refl, ground arith, omega arith, omega arith)
  alu_reg-Completes Alu.sbb r = (refl, ground arith, omega arith, omega arith)
  alu_reg-Completes Alu.ana r = (refl, ground arith, omega arith, omega arith)
  alu_reg-Completes Alu.xra r = (refl, ground arith, omega arith, omega arith)
  alu_reg-Completes Alu.ora r = (refl, ground arith, omega arith, omega arith)
  alu_reg-Completes Alu.cmp r = (refl, ground arith, omega arith, omega arith)
