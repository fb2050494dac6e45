-- ===== src/Machine/Controllers.antt =====
-- `Machine::ProcessControllers` (Machine/source/Machine.cpp): the callback that serves the
-- requests the cpu puts on the bus.
pub mod Requests
use mach_emu.Base.{ℕ, if◌then◌else◌, Option, none, some}
use mach_emu.Bus.{
  Signal, memory_read, memory_write, io_read, io_write, SystemBus, send_data, receive_data,
  receive_address, receive_control,
}
use mach_emu.Controller.{Controller}

-- `dataBus->Send(controller->Read(addressBus->Receive()))`.
unfoldable pub serve_read : {W : Type 0} → Controller W → SystemBus × W → SystemBus × W
unfolding receive_address send_data
serve_read c (bus, w) =
    let r = c.read (receive_address bus).0 w in (send_data r.0 (receive_address bus).1, r.1)

-- `controller->Write(addressBus->Receive(), dataBus->Receive())`.
unfoldable pub serve_write : {W : Type 0} → Controller W → SystemBus × W → SystemBus × W
unfolding receive_address receive_data
serve_write c (bus, w) =
    let a = receive_address bus in let d = receive_data a.1 in (d.1, c.write a.0 d.0 w)

-- `if (controlBus->Receive(signal)) { ... }`.
unfoldable pub on_signal :
    {W : Type 0} → Signal → (SystemBus × W → SystemBus × W) → SystemBus × W → SystemBus × W
unfolding receive_control
on_signal s serve (bus, w) =
    let r = receive_control s bus in if r.0 then serve (r.1, w) else (r.1, w)

-- One controller's half of the function; a null pointer is `none`.
unfoldable pub process_controller :
    {W : Type 0} → Signal → Signal → Option (Controller W) → SystemBus × W → SystemBus × W
unfolding on_signal serve_read serve_write
process_controller read_signal write_signal none s = s
process_controller read_signal write_signal (some c) s =
    on_signal write_signal (serve_write c) (on_signal read_signal (serve_read c) s)

unfoldable pub process_controllers :
    {W : Type 0} → Option (Controller W) → Option (Controller W) → SystemBus → W → SystemBus × W
unfolding process_controller
process_controllers memory io bus w =
    process_controller io_read io_write io
      (process_controller memory_read memory_write memory (bus, w))
