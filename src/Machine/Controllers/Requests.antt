-- ===== src/Machine/Controllers/Requests.antt =====
-- What the cpu may rely on when it calls `process_`: `Machine::ProcessControllers` over a memory
-- and an io controller meets the contract of the cpu's devices.
use mach_emu.Base.{
  ℕ, ◌≡◌, refl, ap, ◌∙◌, Bool, true, false, not, ◌&&◌, some, Bool-cases, inl, inr, arith,
}
use mach_emu.Bits.{Bitset}
use mach_emu.Bus.{
  Signal, clock, interrupt, power_on, power_off, memory_read, memory_write, io_read, io_write,
  SystemBus, lane, set_lane, receive_address, receive_data, send_data, receive_control, idle,
}
use mach_emu.Cpu.State.{Process}
use mach_emu.Cpu.Protocol.{Devices, request, answer}
use mach_emu.Controller.{Controller, IsMemory}
use mach_emu.Machine.Controllers.{
  serve_read, serve_write, on_signal, process_controller, process_controllers,
}

-- The signals that ask for a controller.
abbrev pub is_request : Signal → Bool
is_request memory_read = true
is_request memory_write = true
is_request io_read = true
is_request io_write = true
is_request clock = false
is_request interrupt = false
is_request power_on = false
is_request power_off = false

module _ {W : Type 0} where
  -- Asking for a signal takes it off the control bus, whether it was there or not.
  on_signal-control_bus :
      (s : Signal) (serve : SystemBus × W → SystemBus × W) (x : SystemBus × W)
      → ((y : SystemBus × W) → (serve y).0.control_bus ≡ y.0.control_bus)
      → (on_signal s serve x).0.control_bus ≡ set_lane s false x.0.control_bus
  unfolding on_signal receive_control
  on_signal-control_bus s serve (bus, w) h = elim (Bool-cases (lane s bus.control_bus)) [
    | inl on ↦ rw on (h _)
    | inr off ↦ rw off refl
  ]

  serve_read-control_bus :
      (c : Controller W) (x : SystemBus × W) → (serve_read c x).0.control_bus ≡ x.0.control_bus
  unfolding serve_read
  serve_read-control_bus c x = refl

  serve_write-control_bus :
      (c : Controller W) (x : SystemBus × W) → (serve_write c x).0.control_bus ≡ x.0.control_bus
  unfolding serve_write
  serve_write-control_bus c x = refl

  process_controller-control_bus :
      (s t : Signal) (c : Controller W) (x : SystemBus × W)
      → (process_controller s t (some c) x).0.control_bus
        ≡ set_lane t false (set_lane s false x.0.control_bus)
  unfolding process_controller
  process_controller-control_bus s t c x =
      on_signal-control_bus t (serve_write c) _ (serve_write-control_bus c)
      ∙ ap (set_lane t false) (on_signal-control_bus s (serve_read c) x (serve_read-control_bus c))

module _ {W : Type 0} (m io : Controller W) where
  process_controllers-control_bus :
      (bus : SystemBus) (w : W)
      → (process_controllers (some m) (some io) bus w).0.control_bus
        ≡ set_lane io_write false (
            set_lane io_read false
              (set_lane memory_write false (set_lane memory_read false bus.control_bus)))
  unfolding process_controllers
  process_controllers-control_bus bus w =
      process_controller-control_bus io_read io_write io
        (process_controller memory_read memory_write (some m) (bus, w))
      ∙ ap (λ r. set_lane io_write false (set_lane io_read false r))
          (process_controller-control_bus memory_read memory_write m (bus, w))

  lane-cleared :
      (r : Bitset) (s : Signal)
      → lane s (
          set_lane io_write false
            (set_lane io_read false (set_lane memory_write false (set_lane memory_read false r))))
        ≡ (lane s r && not (is_request s))
  unfolding lane set_lane
  lane-cleared r clock = ground arith
  lane-cleared r interrupt = ground arith
  lane-cleared r power_on = ground arith
  lane-cleared r power_off = ground arith
  lane-cleared r memory_read = ground arith
  lane-cleared r memory_write = ground arith
  lane-cleared r io_read = ground arith
  lane-cleared r io_write = ground arith

  -- With both controllers set, no request is left on the control bus, and the machine's own
  -- signals stay.
  pub process_controllers-lane :
      (bus : SystemBus) (w : W) (s : Signal)
      → lane s (process_controllers (some m) (some io) bus w).0.control_bus
        ≡ (lane s bus.control_bus && not (is_request s))
  process_controllers-lane bus w s =
      ap (lane s) (process_controllers-control_bus bus w) ∙ lane-cleared bus.control_bus s

module _ {W : Type 0} (m io : Controller W) where
  -- The callback that the machine's constructor gives the cpu.
  abbrev pub machine_process : Process W
  machine_process = record { run = process_controllers (some m) (some io) }

  -- Each request of the cpu on an idle bus is served by the controller it is meant for: a read
  -- leaves the device's byte on the data bus and nothing else, a write leaves the bus idle, and
  -- the other controller is not called.
  pub process_controllers-request :
      (a v : ℕ) (w : W)
      → let run = process_controllers (some m) (some io) in
        (run (request memory_read a 0) w ≡ (answer (m.read a w).0, (m.read a w).1))
        × (run (request memory_write a v) w ≡ (idle, m.write a v w))
        × (run (request io_read a 0) w ≡ (answer (io.read a w).0, (io.read a w).1))
        × (run (request io_write a v) w ≡ (idle, io.write a v w))
  unfolding process_controllers serve_read serve_write on_signal process_controller receive_address
      receive_data send_data receive_control lane set_lane
  process_controllers-request a v w = (refl, refl, refl, refl)

  abbrev pub machine_devices : IsMemory m → Devices W ⦃p = machine_process⦄
  machine_devices laws = record {
    peek = λ w a. (m.read a w).0;
    loaded = λ a w. (m.read a w).1;
    store = m.write;
    input = λ w a. (io.read a w).0;
    received = λ a w. (io.read a w).1;
    output = io.write;
    run-memory_read = λ a w. (process_controllers-request a 0 w).0;
    run-memory_write = λ a v w. (process_controllers-request a v w).1;
    run-io_read = λ a w. (process_controllers-request a 0 w).2;
    run-io_write = λ a v w. (process_controllers-request a v w).3;
    peek-lt = λ w a. laws.read-lt a w;
    peek-loaded = λ a b w. laws.read-read a b w;
    peek-store = λ a v b w. laws.read-write a v b w;
  }
