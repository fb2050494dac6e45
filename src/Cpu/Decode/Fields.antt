-- ===== src/Cpu/Decode/Fields.antt =====
-- The 256 cases of the `switch`, against the encoding of the 8080: the opcode's bits are two of a
-- group, three of a destination (or condition, or operation) and three of a source.
use mach_emu.Base.{
  ℕ, zero, suc, ◌/◌, ◌%◌, ◌<◌, ◌≡◌, refl, ◌∙◌, sym, ap, true, false, ◌==◌, if◌then◌else◌, some, map,
  ◌++◌, get_elem?, count_up, get_elem?-map-count_up, arith,
}
use mach_emu.Cpu.State.{
  Condition, carry_flag, parity_flag, zero_flag, sign_flag, Reg, reg_a, reg_b, reg_c, reg_d, reg_e,
  reg_h, reg_l, reg_status,
}
use mach_emu.Cpu.Decode.{
  Alu, Operand, reg, memory, immediate, Test, always, flag_is, Call, Instruction, total, hlt,
  not_implemented,
}
use mach_emu.Cpu.Decode.Low.{page0, page1}
use mach_emu.Cpu.Decode.High.{page2, page3}
use mach_emu.Cpu.Decode.Switch.{decode}

-- The register of a three-bit field; 6 stands for memory, and is taken care of first.
abbrev register : ℕ → Reg
register zero = reg_b
register (suc zero) = reg_c
register (suc (suc zero)) = reg_d
register (suc (suc (suc zero))) = reg_e
register (suc (suc (suc (suc zero)))) = reg_h
register (suc (suc (suc (suc (suc zero))))) = reg_l
register _ = reg_a

abbrev operand : ℕ → Operand
operand k = if k == 6 then memory else reg (register k)

abbrev operation : ℕ → Alu
operation zero = Alu.add
operation (suc zero) = Alu.adc
operation (suc (suc zero)) = Alu.sub
operation (suc (suc (suc zero))) = Alu.sbb
operation (suc (suc (suc (suc zero)))) = Alu.ana
operation (suc (suc (suc (suc (suc zero))))) = Alu.xra
operation (suc (suc (suc (suc (suc (suc zero)))))) = Alu.ora
operation _ = Alu.cmp

-- A flag, and in the lowest bit whether it is to be set.
abbrev condition : ℕ → Test
condition k = flag_is (flag (k / 2)) (k % 2 == 1)
  where
    flag : ℕ → Condition
    flag zero = zero_flag
    flag (suc zero) = carry_flag
    flag (suc (suc zero)) = parity_flag
    flag _ = sign_flag

-- Register pairs B, D and H, and a fourth call for the stack pointer or the status word.
abbrev paired : (Reg → Reg → Call) → Call → ℕ → Instruction
paired f last zero = total (f reg_b reg_c)
paired f last (suc zero) = total (f reg_d reg_e)
paired f last (suc (suc zero)) = total (f reg_h reg_l)
paired f last _ = total last

-- One of eight, in the order of the middle field.
abbrev pick :
    Instruction
    → Instruction
    → Instruction
    → Instruction
    → Instruction
    → Instruction
    → Instruction
    → Instruction
    → ℕ
    → Instruction
pick i0 i1 i2 i3 i4 i5 i6 i7 zero = i0
pick i0 i1 i2 i3 i4 i5 i6 i7 (suc zero) = i1
pick i0 i1 i2 i3 i4 i5 i6 i7 (suc (suc zero)) = i2
pick i0 i1 i2 i3 i4 i5 i6 i7 (suc (suc (suc zero))) = i3
pick i0 i1 i2 i3 i4 i5 i6 i7 (suc (suc (suc (suc zero)))) = i4
pick i0 i1 i2 i3 i4 i5 i6 i7 (suc (suc (suc (suc (suc zero))))) = i5
pick i0 i1 i2 i3 i4 i5 i6 i7 (suc (suc (suc (suc (suc (suc zero)))))) = i6
pick i0 i1 i2 i3 i4 i5 i6 i7 _ = i7

abbrev single : (Reg → Call) → Call → ℕ → Instruction
single f at_memory k = total (if k == 6 then at_memory else f (register k))

-- The groups 00, 01 and 11, by the source field and the middle field. Group 10 is the ALU's.
abbrev group0 : ℕ → ℕ → Instruction
group0 zero y = if y == 0 then total Call.nop else not_implemented
group0 (suc zero) y =
    if y % 2 == 0 then paired Call.lxi Call.lxi_sp (y / 2) else paired Call.dad Call.dad_sp (y / 2)
group0 (suc (suc zero)) y =
    pick (total (Call.stax reg_b reg_c)) (total (Call.ldax reg_b reg_c))
      (total (Call.stax reg_d reg_e)) (total (Call.ldax reg_d reg_e)) (total Call.shld)
      (total Call.lhld) (total Call.sta) (total Call.lda) y
group0 (suc (suc (suc zero))) y =
    if y % 2 == 0 then paired Call.inx Call.inx_sp (y / 2) else paired Call.dcx Call.dcx_sp (y / 2)
group0 (suc (suc (suc (suc zero)))) y = single Call.inr_reg Call.inr_mem y
group0 (suc (suc (suc (suc (suc zero))))) y = single Call.dcr_reg Call.dcr_mem y
group0 (suc (suc (suc (suc (suc (suc zero)))))) y = single Call.mvi_reg Call.mvi_mem y
group0 _ y =
    pick (total Call.rlc) (total Call.rrc) (total Call.ral) (total Call.rar) (total Call.daa)
      (total Call.cma) (total Call.stc) (total Call.cmc) y

-- A move of a register to itself is done as NOP, and MOV M, M is HLT.
abbrev group1 : ℕ → ℕ → Instruction
group1 z y =
    if y == z
    then (if y == 6 then hlt else total Call.nop)
    else if y == 6
    then total (Call.mov_to_mem (register z))
    else if z == 6
    then total (Call.mov_from_mem (register y))
    else total (Call.mov (register y) (register z))

abbrev group3 : ℕ → ℕ → Instruction
group3 zero y = total (Call.ret (condition y) false)
group3 (suc zero) y =
    if y % 2 == 0
    then paired Call.pop Call.pop_psw (y / 2)
    else pick (total (Call.ret always true)) not_implemented (total Call.pchl) (total Call.sphl)
        not_implemented not_implemented not_implemented not_implemented (y / 2)
group3 (suc (suc zero)) y = total (Call.jmp (condition y))
group3 (suc (suc (suc zero))) y =
    pick (total (Call.jmp always)) not_implemented (total Call.out) (total Call.input)
      (total Call.xthl) (total Call.xchg) (total Call.di) (total Call.ei) y
group3 (suc (suc (suc (suc zero)))) y = total (Call.call (condition y))
group3 (suc (suc (suc (suc (suc zero))))) y =
    if y % 2 == 0
    then paired Call.push (Call.push reg_a reg_status) (y / 2)
    else if y == 1
    then total (Call.call always)
    else not_implemented
group3 (suc (suc (suc (suc (suc (suc zero)))))) y = total (Call.alu (operation y) immediate)
group3 _ y = total Call.rst

-- The instruction that an opcode encodes.
unfoldable pub encoded : ℕ → Instruction
encoded opcode =
    let y = opcode / 8 % 8 in
    let z = opcode % 8 in
    if opcode / 64 == 0
    then group0 z y
    else if opcode / 64 == 1
    then group1 z y
    else if opcode / 64 == 2
    then total (Call.alu (operation y) (operand z))
    else group3 z y

pages_encoded : map encoded (count_up 0 256) ≡ page0 ++ (page1 ++ (page2 ++ page3))
unfolding encoded count_up
pages_encoded = refl

-- Each of the 256 cases of `Execute` calls the operation that the bit fields of its opcode name,
-- with the registers, pair, condition or ALU operation of those fields.
pub decode-encoded : (opcode : ℕ) → opcode < 256 → decode opcode ≡ some (encoded opcode)
unfolding decode
decode-encoded opcode h =
    ap (λ l. get_elem? l opcode) (sym pages_encoded)
    ∙ get_elem?-map-count_up encoded 0 256 opcode h
    ∙ ap (λ n. some (encoded n)) (omega arith)
