-- ===== src/Tests/Restoring.antt =====
-- A state that one machine with the test controllers has saved and another loads.
use mach_emu.Base.{ℕ, refl, true, false, Option, none, some, List, [], ◌∷◌, String, replicate}
use mach_emu.Base.Int.{pos}
use mach_emu.Cpu.State.{St, ready}
use mach_emu.Cpu.Snapshot
use mach_emu.Cpu.Snapshot.{Format}
use mach_emu.CpuClock.Platform.{Host}
use mach_emu.Options
use mach_emu.Options.{codes, default_opts}
use mach_emu.Options.Invariant.{calls}
use mach_emu.Machine.Handlers.{not_valid}
use mach_emu.Machine.Images.{Layout, Document}
use mach_emu.Machine.Lifecycle.{Environment, Whole}
use mach_emu.TestControllers.Board.{Board, memory_controller}
use mach_emu.Tests.{board, cpu, masked_cpu}
use mach_emu.Tests.Coding.{coding, pad}
use mach_emu.Tests.Settings.{json, no_files, made}
use mach_emu.Tests.Timing.{counting}
use mach_emu.Tests.Values.{Value}

instance abbrev host : Host ℕ
host = counting

-- The json text of a cpu, and that of a machine.
data Text : Type 0 where
  cpu_text : Snapshot.Document → Text
  machine_text : Text → List ℕ → List ℕ → String → String → ℕ → List ℕ → Text

abbrev parse_cpu : Text → Option Snapshot.Document
parse_cpu (cpu_text d) = some d
parse_cpu _ = none

abbrev format : Format Text
format = record { print = cpu_text; parse = parse_cpu; parse-print = λ d. refl }

abbrev print : Document Text → Text
print d = machine_text d.cpu d.uuid d.rom d.encoder d.compressor d.size d.bytes

abbrev parse : Text → Option (Document Text)
parse (cpu_text d) = none
parse (machine_text cpu uuid rom encoder compressor size bytes) = some (record {
  cpu = cpu;
  uuid = uuid;
  rom = rom;
  encoder = encoder;
  compressor = compressor;
  size = size;
  bytes = bytes;
})

abbrev env : Environment Value Board Text
env = record {
  asserts = false;
  zlib = false;
  files = no_files;
  print_number = λ n. codes "{\"clockResolution\":-1}";
  isr_ticks = λ freq ticks. ticks;
  format = format;
  print = print;
  parse = parse;
  ready = λ w. (true, w);
}

-- The program is in the rom, and the address that it calls in the ram.
abbrev options : Value
options = calls false no_files (default_opts false) (
    some (codes "{\"cpu\":\"i8080\"}")
    ∷ some (codes "{\"romOffset\":256,\"romSize\":5,\"ramOffset\":517,\"ramSize\":6}")
    ∷ [])

abbrev images : Layout × Layout × String × String
images = ((256, 5) ∷ [], (517, 6) ∷ [], "base64", "none")

abbrev saver : Whole Value Board ℕ Text
saver = record {
  settings = record {
    options = options;
    clock = made.clock;
    ticks_per_isr = pos 0;
    running = false;
    on_save = none;
    on_load = none;
  };
  memory_controller = some memory_controller;
  uuid = replicate 16 1;
  io_controller = none;
  state = ready cpu board;
  host_state = 7;
  fut = not_valid;
}

abbrev saved_document : Document Text
saved_document = record {
  cpu = Snapshot.save format cpu;
  uuid = pad (replicate 16 1);
  rom = pad (replicate 16 0);
  encoder = "base64";
  compressor = "none";
  size = 6;
  bytes = pad (replicate 6 0);
}

-- Another machine, with a callback that returns what is saved.
abbrev loader : Whole Value Board ℕ Text
loader = record saver {
  settings = record (saver.settings) { on_load = some (λ w. (some (print saved_document), w)) };
}

-- Its memory differs in the ram.
abbrev state : St Board
state = ready masked_cpu (memory_controller.write 0x206 7 board)
