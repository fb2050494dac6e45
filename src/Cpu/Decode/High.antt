-- ===== src/Cpu/Decode/High.antt =====
-- The cases 0x80 to 0xFF of the `switch (opcode_)` of `Intel8080::Execute`
-- (Cpu/source/8080.cpp): the accumulator's operations, jumps, calls, returns and the stack.
use mach_emu.Base.{true, false, List, [], ◌∷◌}
use mach_emu.Cpu.State.{
  carry_flag, parity_flag, zero_flag, sign_flag, reg_a, reg_b, reg_c, reg_d, reg_e, reg_h, reg_l,
  reg_status,
}
use mach_emu.Cpu.Decode.{
  Instruction, memory, immediate, reg, always, flag_is, total, not_implemented, push, pop, pop_psw,
  alu, jmp, call, ret, rst, out, input, xthl, pchl, xchg, di, sphl, ei, add, adc, sub, sbb, ana,
  xra, ora, cmp,
}

-- The cases 0x80 to 0xBF.
abbrev pub page2 : List Instruction
page2 =
    total (alu add (reg reg_b))
    ∷ total (alu add (reg reg_c))
    ∷ total (alu add (reg reg_d))
    ∷ total (alu add (reg reg_e))
    ∷ total (alu add (reg reg_h))
    ∷ total (alu add (reg reg_l))
    ∷ total (alu add memory)
    ∷ total (alu add (reg reg_a))
    ∷ total (alu adc (reg reg_b))
    ∷ total (alu adc (reg reg_c))
    ∷ total (alu adc (reg reg_d))
    ∷ total (alu adc (reg reg_e))
    ∷ total (alu adc (reg reg_h))
    ∷ total (alu adc (reg reg_l))
    ∷ total (alu adc memory)
    ∷ total (alu adc (reg reg_a))
    ∷ total (alu sub (reg reg_b))
    ∷ total (alu sub (reg reg_c))
    ∷ total (alu sub (reg reg_d))
    ∷ total (alu sub (reg reg_e))
    ∷ total (alu sub (reg reg_h))
    ∷ total (alu sub (reg reg_l))
    ∷ total (alu sub memory)
    ∷ total (alu sub (reg reg_a))
    ∷ total (alu sbb (reg reg_b))
    ∷ total (alu sbb (reg reg_c))
    ∷ total (alu sbb (reg reg_d))
    ∷ total (alu sbb (reg reg_e))
    ∷ total (alu sbb (reg reg_h))
    ∷ total (alu sbb (reg reg_l))
    ∷ total (alu sbb memory)
    ∷ total (alu sbb (reg reg_a))
    ∷ total (alu ana (reg reg_b))
    ∷ total (alu ana (reg reg_c))
    ∷ total (alu ana (reg reg_d))
    ∷ total (alu ana (reg reg_e))
    ∷ total (alu ana (reg reg_h))
    ∷ total (alu ana (reg reg_l))
    ∷ total (alu ana memory)
    ∷ total (alu ana (reg reg_a))
    ∷ total (alu xra (reg reg_b))
    ∷ total (alu xra (reg reg_c))
    ∷ total (alu xra (reg reg_d))
    ∷ total (alu xra (reg reg_e))
    ∷ total (alu xra (reg reg_h))
    ∷ total (alu xra (reg reg_l))
    ∷ total (alu xra memory)
    ∷ total (alu xra (reg reg_a))
    ∷ total (alu ora (reg reg_b))
    ∷ total (alu ora (reg reg_c))
    ∷ total (alu ora (reg reg_d))
    ∷ total (alu ora (reg reg_e))
    ∷ total (alu ora (reg reg_h))
    ∷ total (alu ora (reg reg_l))
    ∷ total (alu ora memory)
    ∷ total (alu ora (reg reg_a))
    ∷ total (alu cmp (reg reg_b))
    ∷ total (alu cmp (reg reg_c))
    ∷ total (alu cmp (reg reg_d))
    ∷ total (alu cmp (reg reg_e))
    ∷ total (alu cmp (reg reg_h))
    ∷ total (alu cmp (reg reg_l))
    ∷ total (alu cmp memory)
    ∷ total (alu cmp (reg reg_a))
    ∷ []

-- The cases 0xC0 to 0xFF.
abbrev pub page3 : List Instruction
page3 =
    total (ret (flag_is zero_flag false) false)
    ∷ total (pop reg_b reg_c)
    ∷ total (jmp (flag_is zero_flag false))
    ∷ total (jmp always)
    ∷ total (call (flag_is zero_flag false))
    ∷ total (push reg_b reg_c)
    ∷ total (alu add immediate)
    ∷ total rst
    ∷ total (ret (flag_is zero_flag true) false)
    ∷ total (ret always true)
    ∷ total (jmp (flag_is zero_flag true))
    ∷ not_implemented
    ∷ total (call (flag_is zero_flag true))
    ∷ total (call always)
    ∷ total (alu adc immediate)
    ∷ total rst
    ∷ total (ret (flag_is carry_flag false) false)
    ∷ total (pop reg_d reg_e)
    ∷ total (jmp (flag_is carry_flag false))
    ∷ total out
    ∷ total (call (flag_is carry_flag false))
    ∷ total (push reg_d reg_e)
    ∷ total (alu sub immediate)
    ∷ total rst
    ∷ total (ret (flag_is carry_flag true) false)
    ∷ not_implemented
    ∷ total (jmp (flag_is carry_flag true))
    ∷ total input
    ∷ total (call (flag_is carry_flag true))
    ∷ not_implemented
    ∷ total (alu sbb immediate)
    ∷ total rst
    ∷ total (ret (flag_is parity_flag false) false)
    ∷ total (pop reg_h reg_l)
    ∷ total (jmp (flag_is parity_flag false))
    ∷ total xthl
    ∷ total (call (flag_is parity_flag false))
    ∷ total (push reg_h reg_l)
    ∷ total (alu ana immediate)
    ∷ total rst
    ∷ total (ret (flag_is parity_flag true) false)
    ∷ total pchl
    ∷ total (jmp (flag_is parity_flag true))
    ∷ total xchg
    ∷ total (call (flag_is parity_flag true))
    ∷ not_implemented
    ∷ total (alu xra immediate)
    ∷ total rst
    ∷ total (ret (flag_is sign_flag false) false)
    ∷ total pop_psw
    ∷ total (jmp (flag_is sign_flag false))
    ∷ total di
    ∷ total (call (flag_is sign_flag false))
    ∷ total (push reg_a reg_status)
    ∷ total (alu ora immediate)
    ∷ total rst
    ∷ total (ret (flag_is sign_flag true) false)
    ∷ total sphl
    ∷ total (jmp (flag_is sign_flag true))
    ∷ total ei
    ∷ total (call (flag_is sign_flag true))
    ∷ not_implemented
    ∷ total (alu cmp immediate)
    ∷ total rst
    ∷ []
