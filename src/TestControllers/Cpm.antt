-- ===== src/TestControllers/Cpm.antt =====
-- `CpmIoController` (Tests/TestControllers/source/CpmIoController.cpp): the console of CP/M. It reads
-- the machine's memory, a part of the world, through the memory controller that it is given.
use mach_emu.Base.{
  ℕ, zero, suc, ◌+◌, ◌*◌, ◌<◌, ◌≡◌, refl, sym, ap, ◌∙◌, false, ◌==◌, if◌then◌else◌, Option, none,
  some, List, [], ◌∷◌, ◌++◌, length, u16, arith,
}
use mathlib.Core.List.{append-nil, append_assoc}
use mach_emu.Base.Results.{if_taken_eq, if_not_taken_eq}
use mach_emu.Controller.{Controller, IsMemory}
use mach_emu.TestControllers.Io.{BaseIo, base_write, base_service}

-- The message's characters in order.
pub record CpmIo : Type 0 where
  pub base : BaseIo
  pub message : List ℕ
  pub print_mode : ℕ
  pub addr_hi : ℕ

-- `Message`: the message, which it clears.
unfoldable pub take_message : CpmIo → List ℕ × CpmIo
take_message io = (io.message, record io { message = [] })

unfoldable pub cpm_read : ℕ → CpmIo → ℕ × CpmIo
cpm_read port io = (0, io)

unfoldable pub cpm_service : ℕ → ℕ → CpmIo → ℕ × CpmIo
unfolding base_service
cpm_service time cycles io = let r = base_service cycles io.base in (r.0, record io { base = r.1 })

abbrev pub dollar : ℕ
dollar = 0x24

unfoldable pub with_message : {W : Type 0} → CpmIo → Option (List ℕ × W) → Option (CpmIo × W)
with_message io none = none
with_message io (some r) = some (record io { message = r.0 }, r.1)

module _ {W : Type 0} (memory : Controller W) where
  -- `while (aChar != '$')`; `none` where the fuel is spent.
  unfoldable pub print_string : ℕ → ℕ → ℕ → List ℕ → W → Option (List ℕ × W)
  print_string zero addr c message w = none
  print_string (suc fuel) addr c message w =
      let r = memory.read (u16 (addr + 1)) w in
      let rest = print_string fuel (u16 (addr + 1)) r.0 (message ++ c ∷ []) r.1 in
      if c == dollar then some (message, w) else rest

  -- `case 2`: the `switch (printMode_)`.
  unfoldable pub process : ℕ → ℕ → CpmIo → W → Option (CpmIo × W)
  unfolding print_string with_message
  process fuel v io w =
      if io.print_mode == 9
      then (let addr = u16 (io.addr_hi * 256 + v) in
          let r = memory.read addr w in with_message io (print_string fuel addr r.0 io.message r.1))
      else if io.print_mode == 2
      then some (record io { message = io.message ++ v ∷ [] }, w)
      else some (io, w)

  unfoldable pub cpm_write : ℕ → ℕ → ℕ → CpmIo → W → Option (CpmIo × W)
  unfolding process base_write
  cpm_write fuel port v io w =
      if port == 0
      then some (record io { print_mode = v }, w)
      else if port == 1
      then some (record io { addr_hi = v }, w)
      else if port == 2
      then process fuel v io w
      else some (record io { base = base_write port io.base }, w)

  -- From an address on, around the end of the memory, it holds the text and then a dollar sign.
  abbrev pub Holds : List ℕ → ℕ → W → Type 0
  Holds [] addr w = (memory.read addr w).0 ≡ dollar
  Holds (c ∷ cs) addr w =
      ((memory.read addr w).0 ≡ c) × ((c == dollar) ≡ false) × Holds cs (u16 (addr + 1)) w

  abbrev pub SameBytes : W → W → Type 0
  SameBytes w w' = (a : ℕ) → (memory.read a w).0 ≡ (memory.read a w').0

module _ {W : Type 0} {memory : Controller W} (lawful : IsMemory memory) where
  Holds-SameBytes :
      (text : List ℕ) (addr : ℕ) (w w' : W)
      → SameBytes memory w' w
      → Holds memory text addr w
      → Holds memory text addr w'
  Holds-SameBytes [] addr w w' same h = same addr ∙ h
  Holds-SameBytes (c ∷ cs) addr w w' same (first, other, rest) =
      (same addr ∙ first, other, Holds-SameBytes cs (u16 (addr + 1)) w w' same rest)

  -- The loop once it has read a character.
  print_string_lem :
      (text : List ℕ) (fuel addr : ℕ) (message : List ℕ) (w : W)
      → Holds memory text addr w
      → length text < fuel
      → let r = memory.read addr w in
        (w' : W) × (print_string memory fuel addr r.0 message r.1 ≡ some (message ++ text, w'))
        × SameBytes memory w' w
  unfolding print_string
  print_string_lem text zero addr message w holds enough = absurd (omega arith)
  print_string_lem [] (suc fuel) addr message w holds enough =
      let w' = (memory.read addr w).1 in
      (
        w',
        if_taken_eq ((memory.read addr w).0 == dollar) _ _ (ap (λ c. c == dollar) holds)
            ∙ ap (λ text. some (text, w')) (sym (append-nil message)),
        λ a. lawful.read-read addr a w,
      )
  print_string_lem (c ∷ cs) (suc fuel) addr message w (first, other, rest) enough =
      let w1 = (memory.read addr w).1 in
      let next = u16 (addr + 1) in
      let same : SameBytes memory w1 w = λ a. lawful.read-read addr a w in
      let (w', e, same') =
        print_string_lem cs fuel next (message ++ (memory.read addr w).0 ∷ []) w1
          (Holds-SameBytes cs next w w1 same rest) (omega arith) in
      (
        w',
        if_not_taken_eq ((memory.read addr w).0 == dollar) _ _ (ap (λ c. c == dollar) first ∙ other)
            ∙ e
            ∙ ap (λ text. some (text, w'))
                (append_assoc message ((memory.read addr w).0 ∷ []) cs
                  ∙ ap (λ x. message ++ x ∷ cs) first),
        λ a. same' a ∙ same a,
      )

  -- A program prints a text that the memory holds, up to a dollar sign, by three writes: 9 to port
  -- 0, and the bytes of the address to the ports 1 and 2. The last one ends, with fuel above the
  -- length of the text, and adds the text to the message; no byte of the memory is changed. After
  -- that, `Message` gives the whole message and leaves an empty one.
  pub cpm_write_lem :
      (fuel hi low : ℕ) (text : List ℕ) (io : CpmIo) (w : W)
      → hi < 256
      → low < 256
      → Holds memory text (hi * 256 + low) w
      → length text < fuel
      → let ready = record io { print_mode = 9; addr_hi = hi } in
        let printed = record ready { message = io.message ++ text } in
        (cpm_write memory fuel 0 9 io w ≡ some (record io { print_mode = 9 }, w))
        × (cpm_write memory fuel 1 hi (record io { print_mode = 9 }) w ≡ some (ready, w))
        × ((w' : W) × (cpm_write memory fuel 2 low ready w ≡ some (printed, w'))
            × SameBytes memory w' w)
        × (take_message printed ≡ (io.message ++ text, record ready { message = [] }))
  unfolding cpm_write process with_message take_message
  cpm_write_lem fuel hi low text io w small_hi small_low holds enough =
      let ready = record io { print_mode = 9; addr_hi = hi } in
      let address : u16 (hi * 256 + low) ≡ hi * 256 + low = omega arith in
      let (w', e, same) = print_string_lem text fuel (hi * 256 + low) io.message w holds enough in
      (refl, refl, (w', rw address (ap (with_message ready) e), same), refl)
