-- ===== src/Cpu/Valid/Memory.antt =====
-- The calls that read or write memory or a port complete.
use mach_emu.Base.{ℕ, ◌<◌, ◌≡◌, refl, Bool, true, false, arith}
use mach_emu.Bits.{odd}
use mach_emu.Bits.Laws.{to_ulong-lt}
use mach_emu.Cpu.State.{Intel8080, Reg, Process, ready, receive}
use mach_emu.Cpu.Adder
use mach_emu.Cpu.Logic
use mach_emu.Cpu.Transfer
use mach_emu.Cpu.Control
use mach_emu.Cpu.Decode.{Alu}
use mach_emu.Cpu.Execute.{alu_mem}
use mach_emu.Cpu.Protocol.{Devices, read_memory, write_memory, read_port, write_port}
use mach_emu.Cpu.Valid.{
  IsValid, Completes, is_plain, assign_reg-IsValid, next_pc-IsValid, next_sp-IsValid, moved-IsValid,
  restart-le,
}

module _ {W : Type 0} ⦃p : Process W⦄ ⦃dev : Devices W⦄ (cpu : Intel8080) (w : W)
    (h : IsValid cpu) where
  pub inr_mem-Completes : Completes (Adder.inr_mem (ready cpu w))
  unfolding Adder.inr_mem receive
  inr_mem-Completes = rw (read_memory, write_memory) (refl, ground arith, omega arith, omega arith)

  pub dcr_mem-Completes : (addr : ℕ) → Completes (Adder.dcr_mem addr (ready cpu w))
  unfolding Adder.dcr_mem receive
  dcr_mem-Completes addr =
      rw (read_memory, write_memory) (refl, ground arith, omega arith, omega arith)

  pub mvi_reg-Completes :
      (r : Reg) → is_plain r ≡ true → Completes (Transfer.mvi_reg r (ready cpu w))
  unfolding Transfer.mvi_reg receive
  mvi_reg-Completes r plain = rw read_memory (
    refl,
    next_pc-IsValid _ (assign_reg-IsValid r _ _ plain (next_pc-IsValid cpu h)),
    omega arith,
    omega arith,
  )

  pub mvi_mem-Completes : Completes (Transfer.mvi_mem (ready cpu w))
  unfolding Transfer.mvi_mem receive
  mvi_mem-Completes = rw (read_memory, write_memory) (refl, ground arith, omega arith, omega arith)

  pub lxi_sp-Completes : Completes (Transfer.lxi_sp (ready cpu w))
  unfolding Transfer.lxi_sp receive
  lxi_sp-Completes =
      rw (read_memory, read_memory)
        (refl, moved-IsValid h (omega arith) (omega (arith, to_ulong-lt)), omega arith, omega arith)

  pub shld-Completes : Completes (Transfer.shld (ready cpu w))
  unfolding Transfer.shld receive
  shld-Completes =
      rw (read_memory, read_memory)
        (simp write_memory (refl, ground arith, omega arith, omega arith))

  pub lhld-Completes : Completes (Transfer.lhld (ready cpu w))
  unfolding Transfer.lhld receive
  lhld-Completes =
      rw (read_memory, read_memory, read_memory, read_memory)
        (refl, ground arith, omega arith, omega arith)

  pub sta-Completes : Completes (Transfer.sta (ready cpu w))
  unfolding Transfer.sta receive
  sta-Completes =
      rw (read_memory, read_memory, write_memory) (refl, ground arith, omega arith, omega arith)

  pub lda-Completes : Completes (Transfer.lda (ready cpu w))
  unfolding Transfer.lda receive
  lda-Completes =
      rw (read_memory, read_memory, read_memory) (refl, ground arith, omega arith, omega arith)

  pub stax-Completes : (hi low : Reg) → Completes (Transfer.stax hi low (ready cpu w))
  unfolding Transfer.stax receive
  stax-Completes hi low = rw write_memory (refl, ground arith, omega arith, omega arith)

  pub ldax-Completes : (hi low : Reg) → Completes (Transfer.ldax hi low (ready cpu w))
  unfolding Transfer.ldax receive
  ldax-Completes hi low = rw read_memory (refl, ground arith, omega arith, omega arith)

  pub mov_from_mem-Completes :
      (r : Reg) → is_plain r ≡ true → Completes (Transfer.mov_from_mem r (ready cpu w))
  unfolding Transfer.mov_from_mem receive
  mov_from_mem-Completes r plain =
      rw read_memory
        (refl, next_pc-IsValid _ (assign_reg-IsValid r _ cpu plain h), omega arith, omega arith)

  pub mov_to_mem-Completes : (v : ℕ) → Completes (Transfer.mov_to_mem v (ready cpu w))
  unfolding Transfer.mov_to_mem receive
  mov_to_mem-Completes v = rw write_memory (refl, ground arith, omega arith, omega arith)

  pub xthl-Completes : Completes (Transfer.xthl (ready cpu w))
  unfolding Transfer.xthl receive
  xthl-Completes =
      rw (read_memory, read_memory)
        (simp write_memory (refl, ground arith, omega arith, omega arith))

  pub out-Completes : Completes (Transfer.out (ready cpu w))
  unfolding Transfer.out receive
  out-Completes = rw (read_memory, write_port) (refl, ground arith, omega arith, omega arith)

  pub input-Completes : Completes (Transfer.input (ready cpu w))
  unfolding Transfer.input receive
  input-Completes = rw (read_memory, read_port) (refl, ground arith, omega arith, omega arith)

  pub push-Completes : (hi low : Reg) → Completes (Control.push hi low (ready cpu w))
  unfolding Control.push receive
  push-Completes hi low =
      rw (write_memory, write_memory) (refl, ground arith, omega arith, omega arith)

  pub pop_psw-Completes : Completes (Control.pop_psw (ready cpu w))
  unfolding Control.pop_psw receive odd
  pop_psw-Completes = rw (read_memory, read_memory) (refl, ground arith, omega arith, omega arith)

  pub rst-Completes : Completes (Control.rst (ready cpu w))
  unfolding Control.rst receive
  rst-Completes =
      rw (write_memory, write_memory)
        (refl, ground (arith, restart-le cpu.opcode), omega arith, omega arith)

  pub rst_interrupt-Completes :
      (code : ℕ) → code < 256 → Completes (Control.rst_interrupt code (ready cpu w))
  unfolding Control.rst_interrupt receive
  rst_interrupt-Completes code small =
      rw (write_memory, write_memory)
        (refl, ground (arith, restart-le code), omega arith, omega arith)

  pub alu_mem-Completes : (op : Alu) (addr : ℕ) → Completes (alu_mem op addr (ready cpu w))
  unfolding alu_mem Adder.add_mem Adder.adc_mem Adder.sub_mem Adder.sbb_mem Adder.cmp_mem
      Logic.ana_mem Logic.xra_mem Logic.ora_mem receive
  alu_mem-Completes Alu.add addr = rw read_memory (refl, ground arith, omega arith, omega arith)
  alu_mem-Completes Alu.adc addr = rw read_memory (refl, ground arith, omega arith, omega arith)
  alu_mem-Completes Alu.sub addr = rw read_memory (refl, ground arith, omega arith, omega arith)
  alu_mem-Completes Alu.sbb addr = rw read_memory (refl, ground arith, omega arith, omega arith)
  alu_mem-Completes Alu.ana addr = rw read_memory (refl, ground arith, omega arith, omega arith)
  alu_mem-Completes Alu.xra addr = rw read_memory (refl, ground arith, omega arith, omega arith)
  alu_mem-Completes Alu.ora addr = rw read_memory (refl, ground arith, omega arith, omega arith)
  alu_mem-Completes Alu.cmp addr = rw read_memory (refl, ground arith, omega arith, omega arith)

  pub lxi-Completes :
      (hi low : Reg)
      → is_plain hi ≡ true
      → is_plain low ≡ true
      → Completes (Transfer.lxi hi low (ready cpu w))
  unfolding Transfer.lxi receive
  lxi-Completes hi low ph pl =
      rw (read_memory, read_memory)
        (
          refl,
          next_pc-IsValid _ (
              assign_reg-IsValid hi _ _ ph
                (next_pc-IsValid _ (assign_reg-IsValid low _ _ pl (next_pc-IsValid cpu h)))),
          omega arith,
          omega arith,
        )

  pub pop-Completes :
      (hi low : Reg)
      → is_plain hi ≡ true
      → is_plain low ≡ true
      → Completes (Control.pop hi low (ready cpu w))
  unfolding Control.pop receive
  pop-Completes hi low ph pl =
      rw (read_memory, read_memory)
        (
          refl,
          next_pc-IsValid _ (
              assign_reg-IsValid hi _ _ ph
                (next_sp-IsValid _ (assign_reg-IsValid low _ _ pl (next_sp-IsValid cpu h)))),
          omega arith,
          omega arith,
        )

  pub jmp_on_flag-Completes : (b : Bool) → Completes (Control.jmp_on_flag b (ready cpu w))
  unfolding Control.jmp_on_flag receive
  jmp_on_flag-Completes true =
      rw (read_memory, read_memory)
        (refl, moved-IsValid h (omega (arith, to_ulong-lt)) h.sp_fits, omega arith, omega arith)
  jmp_on_flag-Completes false =
      rw (read_memory, read_memory) (refl, ground arith, omega arith, omega arith)

  pub call_on_flag-Completes : (b : Bool) → Completes (Control.call_on_flag b (ready cpu w))
  unfolding Control.call_on_flag receive
  call_on_flag-Completes true =
      rw (read_memory, read_memory, write_memory, write_memory)
        (refl, moved-IsValid h (omega (arith, to_ulong-lt)) (omega arith), omega arith, omega arith)
  call_on_flag-Completes false =
      rw (read_memory, read_memory) (refl, ground arith, omega arith, omega arith)

  pub ret_on_flag-Completes :
      (b is_ret : Bool) → Completes (Control.ret_on_flag b is_ret (ready cpu w))
  unfolding Control.ret_on_flag receive
  ret_on_flag-Completes true is_ret =
      rw (read_memory, read_memory)
        (
          refl,
          moved-IsValid h (omega (arith, to_ulong-lt)) (omega arith),
          ground arith,
          ground arith,
        )
  ret_on_flag-Completes false is_ret = (refl, ground arith, omega arith, omega arith)
