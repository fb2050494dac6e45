-- ===== src/Cpu/Snapshot/Bytes.antt =====
-- What the twelve bytes of `GetState` tell about the cpu.
use mach_emu.Base.{ℕ, zero, suc, ◌/◌, ◌%◌, ◌<◌, ◌≡◌, sym, ap, ◌∙◌, List, [], ◌∷◌, u8, arith}
use mach_emu.Bits.{Bitset, of_ulong}
use mach_emu.Bits.Laws.{of_ulong-to_ulong}
use mach_emu.Cpu.State.{Intel8080, value}
use mach_emu.Cpu.Valid.{IsValid}
use mach_emu.Cpu.Snapshot.{get_state}

-- `state[k]`, 0 past the end.
abbrev byte : ℕ → List ℕ → ℕ
byte k [] = 0
byte zero (x ∷ xs) = x
byte (suc k) (x ∷ xs) = byte k xs

same_register : (x y : Bitset) → value x ≡ value y → x ≡ y
same_register x y e = sym (of_ulong-to_ulong x) ∙ ap of_ulong e ∙ of_ulong-to_ulong y

same_word :
    (m n : ℕ)
    → m < 65536
    → n < 65536
    → u8 (m / 256) ≡ u8 (n / 256)
    → u8 (m % 256) ≡ u8 (n % 256)
    → m ≡ n
same_word m n hm hn hi low = omega arith

-- Two valid cpus with the same state bytes are the same, but for `iff` and the opcode last
-- fetched, which are not among the bytes.
pub get_state-eq :
    (x y : Intel8080)
    → IsValid x
    → IsValid y
    → get_state x ≡ get_state y
    → x ≡ record y { iff = x.iff; opcode = x.opcode }
unfolding get_state
get_state-eq x y hx hy e = λ i. record x {
  a = same_register x.a y.a (ap (byte 0) e) i;
  b = same_register x.b y.b (ap (byte 1) e) i;
  c = same_register x.c y.c (ap (byte 2) e) i;
  d = same_register x.d y.d (ap (byte 3) e) i;
  e = same_register x.e y.e (ap (byte 4) e) i;
  h = same_register x.h y.h (ap (byte 5) e) i;
  l = same_register x.l y.l (ap (byte 6) e) i;
  status = same_register x.status y.status (ap (byte 7) e) i;
  pc = same_word x.pc y.pc hx.pc_fits hy.pc_fits (ap (byte 8) e) (ap (byte 9) e) i;
  sp = same_word x.sp y.sp hx.sp_fits hy.sp_fits (ap (byte 10) e) (ap (byte 11) e) i;
}
