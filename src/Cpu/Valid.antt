-- ===== src/Cpu/Valid.antt =====
-- What holds of the cpu between two instructions.
pub mod Registers
pub mod Memory
pub mod Execution
pub mod Step
pub mod Aborts
use Prim.Native.Nat.{bit_and}
use mach_emu.Base.{ℕ, ◌+◌, ◌*◌, ◌≤◌, ◌<◌, ◌≡◌, refl, Bool, true, false, leb, leb→le, arith, u16}
use mach_emu.Base.Table.{table, row}
use mach_emu.Bits.{Bitset, to_ulong}
use mach_emu.Bits.Laws.{to_ulong-lt}
use mach_emu.Bus.{idle}
use mach_emu.Cpu.State.{Intel8080, Reg, reg_status, assign_reg, uint16, St}

-- The fields fit their types, and the bits of `status_` that are no flags read S Z 0 AC 0 P 1 C.
pub record IsValid (cpu : Intel8080) : Type 0 where
  pub pc_fits : cpu.pc < 65536
  pub sp_fits : cpu.sp < 65536
  pub opcode_fits : cpu.opcode < 256
  pub one : cpu.status.bit1 ≡ true
  pub three : cpu.status.bit3 ≡ false
  pub five : cpu.status.bit5 ≡ false

pub uint16-lt : (hi low : Bitset) → uint16 hi low < 65536
unfolding uint16
uint16-lt hi low = omega (arith, to_ulong-lt)

-- The call assigns to no `Register&` that is `status_`. (POP PSW assigns to it by itself.)
abbrev pub is_plain : Reg → Bool
is_plain reg_status = false
is_plain _ = true

pub assign_reg-IsValid :
    (r : Reg) (v : Bitset) (cpu : Intel8080)
    → is_plain r ≡ true
    → IsValid cpu
    → IsValid (assign_reg r v cpu)
assign_reg-IsValid r v cpu plain h = ground arith

pub next_pc-IsValid :
    (cpu : Intel8080) → IsValid cpu → IsValid (record cpu { pc = u16 (cpu.pc + 1) })
next_pc-IsValid cpu h = ground arith

pub next_sp-IsValid :
    (cpu : Intel8080) → IsValid cpu → IsValid (record cpu { sp = u16 (cpu.sp + 1) })
next_sp-IsValid cpu h = ground arith

pub moved-IsValid :
    {cpu : Intel8080} {pc sp : ℕ}
    → IsValid cpu
    → pc < 65536
    → sp < 65536
    → IsValid (record cpu { pc = pc; sp = sp })
moved-IsValid h hp hs = record {
  pc_fits = hp;
  sp_fits = hs;
  opcode_fits = h.opcode_fits;
  one = h.one;
  three = h.three;
  five = h.five;
}

restart_table : table (λ code. leb (bit_and code 0x38) 0x38) 256 ≡ true
unfolding table
restart_table = refl

-- The address of a restart is one of eight.
pub restart-le : (code : ℕ) → code < 256 → bit_and code 0x38 ≤ 0x38
restart-le code h = leb→le _ _ (row _ 256 code h restart_table)

module _ {W : Type 0} where
  -- A completed call: nothing is left on the bus, the cpu is valid, and the ticks are those of one
  -- instruction.
  abbrev pub Completes : ℕ × St W → Type 0
  Completes (ticks, s) = (s.bus ≡ idle) × IsValid s.cpu × (4 ≤ ticks) × (ticks ≤ 18)
