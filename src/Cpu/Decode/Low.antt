-- ===== src/Cpu/Decode/Low.antt =====
-- The cases 0x00 to 0x7F of the `switch (opcode_)` of `Intel8080::Execute`
-- (Cpu/source/8080.cpp): loads, 16-bit operations, counting and moves.
use mach_emu.Base.{List, [], ◌∷◌}
use mach_emu.Cpu.State.{reg_a, reg_b, reg_c, reg_d, reg_e, reg_h, reg_l}
use mach_emu.Cpu.Decode.{
  Instruction, total, hlt, not_implemented, nop, lxi, stax, inx, dcx, dad, ldax, lxi_sp, inx_sp,
  dcx_sp, dad_sp, inr_reg, dcr_reg, mvi_reg, inr_mem, dcr_mem, mvi_mem, rlc, rrc, ral, rar, daa,
  cma, stc, cmc, shld, lhld, sta, lda, mov, mov_from_mem, mov_to_mem,
}

-- The cases 0x00 to 0x3F.
abbrev pub page0 : List Instruction
page0 =
    total nop
    ∷ total (lxi reg_b reg_c)
    ∷ total (stax reg_b reg_c)
    ∷ total (inx reg_b reg_c)
    ∷ total (inr_reg reg_b)
    ∷ total (dcr_reg reg_b)
    ∷ total (mvi_reg reg_b)
    ∷ total rlc
    ∷ not_implemented
    ∷ total (dad reg_b reg_c)
    ∷ total (ldax reg_b reg_c)
    ∷ total (dcx reg_b reg_c)
    ∷ total (inr_reg reg_c)
    ∷ total (dcr_reg reg_c)
    ∷ total (mvi_reg reg_c)
    ∷ total rrc
    ∷ not_implemented
    ∷ total (lxi reg_d reg_e)
    ∷ total (stax reg_d reg_e)
    ∷ total (inx reg_d reg_e)
    ∷ total (inr_reg reg_d)
    ∷ total (dcr_reg reg_d)
    ∷ total (mvi_reg reg_d)
    ∷ total ral
    ∷ not_implemented
    ∷ total (dad reg_d reg_e)
    ∷ total (ldax reg_d reg_e)
    ∷ total (dcx reg_d reg_e)
    ∷ total (inr_reg reg_e)
    ∷ total (dcr_reg reg_e)
    ∷ total (mvi_reg reg_e)
    ∷ total rar
    ∷ not_implemented
    ∷ total (lxi reg_h reg_l)
    ∷ total shld
    ∷ total (inx reg_h reg_l)
    ∷ total (inr_reg reg_h)
    ∷ total (dcr_reg reg_h)
    ∷ total (mvi_reg reg_h)
    ∷ total daa
    ∷ not_implemented
    ∷ total (dad reg_h reg_l)
    ∷ total lhld
    ∷ total (dcx reg_h reg_l)
    ∷ total (inr_reg reg_l)
    ∷ total (dcr_reg reg_l)
    ∷ total (mvi_reg reg_l)
    ∷ total cma
    ∷ not_implemented
    ∷ total lxi_sp
    ∷ total sta
    ∷ total inx_sp
    ∷ total inr_mem
    ∷ total dcr_mem
    ∷ total mvi_mem
    ∷ total stc
    ∷ not_implemented
    ∷ total dad_sp
    ∷ total lda
    ∷ total dcx_sp
    ∷ total (inr_reg reg_a)
    ∷ total (dcr_reg reg_a)
    ∷ total (mvi_reg reg_a)
    ∷ total cmc
    ∷ []

-- The cases 0x40 to 0x7F.
abbrev pub page1 : List Instruction
page1 =
    total nop
    ∷ total (mov reg_b reg_c)
    ∷ total (mov reg_b reg_d)
    ∷ total (mov reg_b reg_e)
    ∷ total (mov reg_b reg_h)
    ∷ total (mov reg_b reg_l)
    ∷ total (mov_from_mem reg_b)
    ∷ total (mov reg_b reg_a)
    ∷ total (mov reg_c reg_b)
    ∷ total nop
    ∷ total (mov reg_c reg_d)
    ∷ total (mov reg_c reg_e)
    ∷ total (mov reg_c reg_h)
    ∷ total (mov reg_c reg_l)
    ∷ total (mov_from_mem reg_c)
    ∷ total (mov reg_c reg_a)
    ∷ total (mov reg_d reg_b)
    ∷ total (mov reg_d reg_c)
    ∷ total nop
    ∷ total (mov reg_d reg_e)
    ∷ total (mov reg_d reg_h)
    ∷ total (mov reg_d reg_l)
    ∷ total (mov_from_mem reg_d)
    ∷ total (mov reg_d reg_a)
    ∷ total (mov reg_e reg_b)
    ∷ total (mov reg_e reg_c)
    ∷ total (mov reg_e reg_d)
    ∷ total nop
    ∷ total (mov reg_e reg_h)
    ∷ total (mov reg_e reg_l)
    ∷ total (mov_from_mem reg_e)
    ∷ total (mov reg_e reg_a)
    ∷ total (mov reg_h reg_b)
    ∷ total (mov reg_h reg_c)
    ∷ total (mov reg_h reg_d)
    ∷ total (mov reg_h reg_e)
    ∷ total nop
    ∷ total (mov reg_h reg_l)
    ∷ total (mov_from_mem reg_h)
    ∷ total (mov reg_h reg_a)
    ∷ total (mov reg_l reg_b)
    ∷ total (mov reg_l reg_c)
    ∷ total (mov reg_l reg_d)
    ∷ total (mov reg_l reg_e)
    ∷ total (mov reg_l reg_h)
    ∷ total nop
    ∷ total (mov_from_mem reg_l)
    ∷ total (mov reg_l reg_a)
    ∷ total (mov_to_mem reg_b)
    ∷ total (mov_to_mem reg_c)
    ∷ total (mov_to_mem reg_d)
    ∷ total (mov_to_mem reg_e)
    ∷ total (mov_to_mem reg_h)
    ∷ total (mov_to_mem reg_l)
    ∷ hlt
    ∷ total (mov_to_mem reg_a)
    ∷ total (mov reg_a reg_b)
    ∷ total (mov reg_a reg_c)
    ∷ total (mov reg_a reg_d)
    ∷ total (mov reg_a reg_e)
    ∷ total (mov reg_a reg_h)
    ∷ total (mov reg_a reg_l)
    ∷ total (mov_from_mem reg_a)
    ∷ total nop
    ∷ []
