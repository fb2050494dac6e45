-- ===== src/Tests/Processor.antt =====
-- The cpu's theorems at concrete states.
use mach_emu.Base.{ℕ, ◌+◌, ◌*◌, ◌≡◌, ◌≢◌, ◌↔◌, refl, true, false, some, none, arith}
use mach_emu.Bits.{no_bits, digit, of_ulong, odd, to_ulong}
use mach_emu.Cpu.Decode.Table.{execute_table, execute_table-execute}
use mach_emu.Cpu.State.{
  Intel8080, carry_flag, zero_flag, aux_carry_flag, reg_a, reg_b, reg_c, reg_d, reg_e, reg_status,
  value, uint16, ready,
}
use mach_emu.Cpu.Valid.{IsValid}
use mach_emu.Cpu.Valid.Step.{Awaits, Runs, pending, execute-Runs}
use mach_emu.Cpu.Valid.Aborts.{is_fatal, execute-none_iff}
use mach_emu.Cpu.Decode.{Call, always}
use mach_emu.Cpu.Decode.Switch.{decode}
use mach_emu.Cpu.Decode.Fields.{encoded, decode-encoded}
use mach_emu.Cpu.Execute.{exec, execute}
use mach_emu.Cpu.Adder.{add_reg, adc_reg, sbb_reg, cmp_reg, daa}
use mach_emu.Cpu.Adder.Sums.{flag, Describes, adc_sum, sbb_difference, cmp_order}
use mach_emu.Cpu.Adder.Decimal.{daa-add}
use mach_emu.Cpu.Logic.Rotates.{twice_on}
use mach_emu.Cpu.Transfer.Pairs.{de}
use mach_emu.Cpu.Control.{push, pop, pop_psw}
use mach_emu.Cpu.Control.Stack.{pop-push}
use mach_emu.Cpu.Control.Calls.{pop_psw-push, ret-call}
use mach_emu.Cpu.Control.Interrupts.{interrupted, handling, ret-execute}
use mach_emu.TestControllers.Board.{Board, memory_controller, board_process, board_devices}
use mach_emu.TestControllers.Memory
use mach_emu.Tests.{board, cpu, byte27}

cpu-IsValid : IsValid cpu
cpu-IsValid = record {
  pc_fits = omega arith;
  sp_fits = omega arith;
  opcode_fits = omega arith;
  one = refl;
  three = refl;
  five = refl;
}

execute-Runs_example : Runs (execute false (record { cpu = cpu; bus = pending 9; world = board }))
execute-Runs_example = execute-Runs cpu board cpu-IsValid (Awaits.request 9 (omega arith))

-- The cpu in the handler at vector 7, with another accumulator, and a RET there.
abbrev serving_cpu : Intel8080
serving_cpu = record ((handling cpu board 7).cpu) { a = no_bits }

abbrev serving : Board
serving = memory_controller.write 0x38 0xc9 (handling cpu board 7).world

ret-execute_example :
    (execute true (interrupted cpu board 7) ≡ some (11, handling cpu board 7))
    × (w2 : Board) × (execute true (ready serving_cpu serving)
        ≡ some (10, ready (record cpu { iff = false; a = no_bits; opcode = 0xc9 }) w2))
    × ((a : ℕ) → board_devices.peek w2 a ≡ board_devices.peek serving a)
unfolding board board_devices board_process memory_controller Memory.memory_controller Memory.read
    Memory.write Memory.fill
ret-execute_example =
    ret-execute cpu board true 7 cpu-IsValid (omega arith) refl serving_cpu serving refl refl refl
      refl

-- The byte at the program counter is CALL.
execute-none_iff_example : (execute true (ready cpu board) ≡ none) ↔ (is_fatal 0xcd ≡ true)
unfolding board board_devices board_process memory_controller Memory.memory_controller Memory.read
    Memory.fill
execute-none_iff_example = execute-none_iff cpu board

decode-encoded_example : decode 0xcd ≡ some (encoded 0xcd)
decode-encoded_example = decode-encoded 0xcd (omega arith)

ret-call_example :
    let called = exec (Call.call always) (ready cpu board) in
    (called.0 ≡ 17)
    × (called.1.cpu.pc ≡ 0x205)
    × ((exec (Call.ret always true) called.1).1.cpu ≡ record cpu { pc = 0x103 })
unfolding board board_devices board_process memory_controller Memory.memory_controller Memory.read
    Memory.fill uint16 of_ulong odd to_ulong digit
ret-call_example = ret-call always true cpu board cpu-IsValid

-- PUSH B, with the stack pointer at 1, and POP D.
pop-push_example :
    let s = (pop reg_d reg_e (push reg_b reg_c (ready cpu board)).1).1 in
    (s.cpu ≡ twice_on (record cpu { d = byte27; e = no_bits }))
    × ((a : ℕ) → a ≢ 0 → a ≢ 65535 → board_devices.peek s.world a ≡ board_devices.peek board a)
pop-push_example = pop-push reg_b reg_c de cpu board (omega arith)

pop_psw-push_example : (pop_psw (push reg_a reg_status (ready cpu board)).1).1.cpu ≡ twice_on cpu
pop_psw-push_example = pop_psw-push cpu board cpu-IsValid

-- 27 + 27 = 54.
daa-add_example :
    let cpu' = (daa (add_reg reg_b (ready cpu board)).1).1.cpu in
    (value cpu'.a ≡ 0x54) × (flag carry_flag cpu' ≡ false)
unfolding to_ulong digit
daa-add_example = daa-add cpu board reg_b 27 27 (omega arith) (omega arith) refl refl

-- 0x27 + 0x27 and the carry.
adc_sum_example :
    let cpu' = (adc_reg reg_b (ready cpu board)).1.cpu in
    (value cpu'.a + 256 * digit (flag carry_flag cpu') ≡ 0x4f)
    × (flag aux_carry_flag cpu' ≡ false)
    × Describes cpu'.status cpu'.a
    × (cpu' ≡ record cpu { a = cpu'.a; pc = 0x101; status = cpu'.status })
unfolding to_ulong digit
adc_sum_example = adc_sum cpu board reg_b

execute_table-execute_example :
    execute_table true (ready cpu board) ≡ execute true (ready cpu board)
execute_table-execute_example = execute_table-execute true (ready cpu board)

-- 0x27 - 0x27 - 1.
sbb_difference_example :
    let cpu' = (sbb_reg reg_b (ready cpu board)).1.cpu in
    (value cpu'.a + 0x27 + 1 ≡ 0x27 + 256 * digit (flag carry_flag cpu'))
    × Describes cpu'.status cpu'.a
    × (cpu' ≡ record cpu { a = cpu'.a; pc = 0x101; status = cpu'.status })
unfolding to_ulong digit
sbb_difference_example = sbb_difference cpu board reg_b

cmp_order_example :
    let cpu' = (cmp_reg reg_c (ready cpu board)).1.cpu in
    (flag carry_flag cpu' ≡ false)
    × (flag zero_flag cpu' ≡ false)
    × (cpu' ≡ record cpu { pc = 0x101; status = cpu'.status })
unfolding to_ulong digit
cmp_order_example = cmp_order cpu board reg_c
