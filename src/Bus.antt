-- ===== src/Bus.antt =====
-- SystemBus/include/SystemBus/SystemBus.h: the address bus, the data bus and the control bus. The
-- three are shared by pointer between the cpu and the machine; here they are one record that
-- every operation returns anew. `Size` and the constructors hold no state of their own.
use mach_emu.Base.{ℕ, Bool, true, false}
use mach_emu.Bits.{Bitset, no_bits}

-- `enum Signal`, in the order of the source: the lane's number is the constructor's position.
pub data Signal : Type 0 where
  clock interrupt power_on power_off memory_read memory_write io_read io_write : Signal

pub record SystemBus : Type 0 where
  pub address_bus : ℕ  -- uint16_t
  pub data_bus : ℕ  -- uint8_t
  pub control_bus : Bitset

-- `lanes_[signal]`, and `lanes_.set(signal)` or `lanes_.reset(signal)`.
unfoldable pub lane : Signal → Bitset → Bool
lane clock r = r.bit0
lane interrupt r = r.bit1
lane power_on r = r.bit2
lane power_off r = r.bit3
lane memory_read r = r.bit4
lane memory_write r = r.bit5
lane io_read r = r.bit6
lane io_write r = r.bit7

unfoldable pub set_lane : Signal → Bool → Bitset → Bitset
set_lane clock v r = record r { bit0 = v }
set_lane interrupt v r = record r { bit1 = v }
set_lane power_on v r = record r { bit2 = v }
set_lane power_off v r = record r { bit3 = v }
set_lane memory_read v r = record r { bit4 = v }
set_lane memory_write v r = record r { bit5 = v }
set_lane io_read v r = record r { bit6 = v }
set_lane io_write v r = record r { bit7 = v }

-- `DataBus::Send` and `DataBus::Receive`: a received value is gone from the bus.
unfoldable pub send_data : ℕ → SystemBus → SystemBus
send_data v bus = record bus { data_bus = v }

unfoldable pub receive_data : SystemBus → ℕ × SystemBus
receive_data bus = (bus.data_bus, record bus { data_bus = 0 })

-- `AddressBus::Send` and `AddressBus::Receive`.
unfoldable pub send_address : ℕ → SystemBus → SystemBus
send_address v bus = record bus { address_bus = v }

unfoldable pub receive_address : SystemBus → ℕ × SystemBus
receive_address bus = (bus.address_bus, record bus { address_bus = 0 })

-- `ControlBus::Send` and `ControlBus::Receive`: reading a lane clears it.
unfoldable pub send_control : Signal → SystemBus → SystemBus
unfolding set_lane
send_control s bus = record bus { control_bus = set_lane s true bus.control_bus }

unfoldable pub receive_control : Signal → SystemBus → Bool × SystemBus
unfolding lane set_lane
receive_control s bus =
    (lane s bus.control_bus, record bus { control_bus = set_lane s false bus.control_bus })

-- A new bus (`MakeSystemBus`): nothing is pending.
abbrev pub idle : SystemBus
idle = record { address_bus = 0; data_bus = 0; control_bus = no_bits }
