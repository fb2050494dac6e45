-- ===== src/TestControllers/Board.antt =====
-- A machine with a `MemoryController` and a `TestIoController`.
use mach_emu.Cpu.State.{Process}
use mach_emu.Cpu.Protocol.{Devices}
use mach_emu.Controller.{no_interrupt, Controller, IsMemory}
use mach_emu.Machine.Controllers.Requests.{machine_process, machine_devices}
use mach_emu.TestControllers.Memory
use mach_emu.TestControllers.Memory.{MemoryController, memory_controller-IsMemory}
use mach_emu.TestControllers.Io
use mach_emu.TestControllers.Io.{TestIo}

pub record Board : Type 0 where
  pub memory : MemoryController
  pub io : TestIo

unfoldable pub memory_controller : Controller Board
unfolding Memory.memory_controller
memory_controller = record {
  read =
      λ a w. let r = Memory.memory_controller.read a w.memory in (r.0, record w { memory = r.1 });
  write = λ a v w. record w { memory = Memory.memory_controller.write a v w.memory };
  service_interrupts = λ time cycles w. (no_interrupt, w);
}

unfoldable pub io_controller : Controller Board
unfolding Io.test_read Io.test_write Io.test_service
io_controller = record {
  read = λ a w. let r = Io.test_read a w.io in (r.0, record w { io = r.1 });
  write = λ a v w. record w { io = Io.test_write a v w.io };
  service_interrupts =
      λ time cycles w. let r = Io.test_service time cycles w.io in (r.0, record w { io = r.1 });
}

pub board_laws : IsMemory memory_controller
unfolding memory_controller
board_laws = record {
  read-lt = λ a w. memory_controller-IsMemory.read-lt a w.memory;
  read-read = λ a b w. memory_controller-IsMemory.read-read a b w.memory;
  read-write = λ a v b w. memory_controller-IsMemory.read-write a v b w.memory;
}

instance unfoldable pub board_process : Process Board
unfolding memory_controller io_controller
board_process = machine_process memory_controller io_controller

instance unfoldable pub board_devices : Devices Board
unfolding board_process memory_controller io_controller
board_devices = machine_devices memory_controller io_controller board_laws
