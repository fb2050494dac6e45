-- ===== src/Cpu/Decode/Switch.antt =====
-- The `switch (opcode_)` of `Intel8080::Execute` (Cpu/source/8080.cpp) as a whole.
use mach_emu.Base.{ℕ, ◌++◌, Option, get_elem?}
use mach_emu.Cpu.Decode.{Instruction}
use mach_emu.Cpu.Decode.Low.{page0, page1}
use mach_emu.Cpu.Decode.High.{page2, page3}

-- The case of an opcode; `none` is the `default`, which no `uint8_t` reaches.
unfoldable pub decode : ℕ → Option Instruction
decode opcode = get_elem? (page0 ++ (page1 ++ (page2 ++ page3))) opcode
