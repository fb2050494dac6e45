-- ===== src/TestControllers/Memory.antt =====
-- `MemoryController` (Tests/TestControllers/source/MemoryController.cpp). `memory_` is a vector of
-- `memorySize_` bytes that every `uint16_t` addresses, so it is a function on addresses;
-- an element, a `uint8_t`, is a number of which the low eight bits are read.
use mach_emu.Base.{
  ℕ, zero, suc, ◌+◌, ◌-◌, ◌<◌, ◌≡◌, refl, ap, false, ◌&&◌, ◌==◌, ltb, leb, if◌then◌else◌, Option,
  none, some, List, [], ◌∷◌, length, get_elem?, take, u8, u16, u16_small, arith, Bool-cases, inl,
  inr, take-length,
}
use mach_emu.Controller.{no_interrupt, Controller, IsMemory}

pub record MemoryController : Type 0 where
  pub memory : ℕ → ℕ

abbrev pub memory_size : ℕ
memory_size = 0x10000

-- The constructor, and `Clear`.
unfoldable pub cleared : MemoryController
cleared = record { memory = λ a. 0 }

unfoldable pub read : ℕ → MemoryController → ℕ × MemoryController
read addr m = (u8 (m.memory addr), m)

unfoldable pub write : ℕ → ℕ → MemoryController → MemoryController
write addr v m = record m { memory = λ a. if addr == a then v else m.memory a }

-- `ifstream::read` into `&memory_[offset]`.
unfoldable pub fill : ℕ → List ℕ → (ℕ → ℕ) → ℕ → ℕ
fill offset [] memory a = memory a
fill offset (x ∷ xs) memory a = if offset == a then x else fill (suc offset) xs memory a

-- The exceptions of `Load`.
pub data LoadResult : Type 0 where
  failed_to_open too_big does_not_fit : LoadResult
  loaded : MemoryController → LoadResult

-- `size > memorySize_ - offset`, with the `uint16_t` that `size` is.
unfoldable load_at : ℕ → List ℕ → MemoryController → LoadResult
unfolding fill
load_at offset file m =
    let size = u16 (length file) in
    if ltb (memory_size - offset) size
    then does_not_fit
    else loaded (record { memory = fill offset (take size file) m.memory })

-- `Load`: the file's bytes, or `none` where it does not open.
unfoldable pub load : Option (List ℕ) → ℕ → MemoryController → LoadResult
unfolding load_at
load none offset m = failed_to_open
load (some file) offset m = if ltb memory_size (length file) then too_big else load_at offset file m

-- The controller's interface to the machine. It never issues an interrupt.
unfoldable pub memory_controller : Controller MemoryController
unfolding read write
memory_controller = record {
  read = read;
  write = write;
  service_interrupts = λ time cycles m. (no_interrupt, m);
}

fill-inside :
    (offset : ℕ) (xs : List ℕ) (memory : ℕ → ℕ) (i x : ℕ)
    → get_elem? xs i ≡ some x
    → fill offset xs memory (offset + i) ≡ x
unfolding fill
fill-inside offset [] memory i x h = ground arith
fill-inside offset (y ∷ ys) memory zero x h = ground arith
fill-inside offset (y ∷ ys) memory (suc i) x h =
    ground (arith, fill-inside (suc offset) ys memory i x h)

fill-outside :
    (offset : ℕ) (xs : List ℕ) (memory : ℕ → ℕ) (a : ℕ)
    → (leb offset a && ltb a (offset + length xs)) ≡ false
    → fill offset xs memory a ≡ memory a
unfolding fill
fill-outside offset [] memory a h = refl
fill-outside offset (y ∷ ys) memory a h = ground (arith, fill-outside (suc offset) ys memory a)

-- The memory once a file is loaded.
abbrev pub filled : List ℕ → ℕ → MemoryController → MemoryController
filled file offset m = record { memory = fill offset file m.memory }

load_small :
    (file : List ℕ) (offset : ℕ) (m : MemoryController)
    → offset < 65536
    → length file < 65536
    → load (some file) offset m
      ≡ (if leb (offset + length file) 65536 then loaded (filled file offset m) else does_not_fit)
unfolding load load_at
load_small file offset m small fits =
    rw (u16_small (length file) fits, take-length file) (ground arith)

-- A file smaller than the memory is loaded if it ends within the memory, and is refused if it does
-- not: once loaded, each of its bytes is read at its place after the offset, and every other
-- address still holds what it held.
pub read-load :
    (file : List ℕ) (offset : ℕ) (m : MemoryController)
    → offset < 65536
    → length file < 65536
    → (if leb (offset + length file) 65536
        then ((n : MemoryController) × (load (some file) offset m ≡ loaded n)
            × ((i x : ℕ) → get_elem? file i ≡ some x → (read (offset + i) n).0 ≡ u8 x)
            × ((a : ℕ)
                → (leb offset a && ltb a (offset + length file)) ≡ false
                → (read a n).0 ≡ (read a m).0))
        else (load (some file) offset m ≡ does_not_fit))
unfolding read
read-load file offset m small fits = elim (Bool-cases (leb (offset + length file) 65536)) [
  | inl fit ↦ rw fit (
    filled file offset m,
    rw (load_small file offset m small fits, fit) refl,
    λ i x found. ap u8 (fill-inside offset file m.memory i x found),
    λ a out. ap u8 (fill-outside offset file m.memory a out),
  )
  | inr over ↦ rw (over, load_small file offset m small fits, over) refl
]

-- A file that is exactly as large as the memory is accepted at every offset, and not one of its
-- bytes is loaded.
pub load_whole :
    (file : List ℕ) (offset : ℕ) (m : MemoryController)
    → length file ≡ 65536
    → load (some file) offset m ≡ loaded m
unfolding load load_at fill
load_whole file offset m whole = rw whole (ground arith)

-- The controller is a memory: its reads are bytes and change nothing, and a byte that is written
-- is read back at its address and at no other.
pub memory_controller-IsMemory : IsMemory memory_controller
unfolding memory_controller read write
memory_controller-IsMemory = record {
  read-lt = λ a w. omega arith;
  read-read = λ a b w. refl;
  read-write = λ a v b w. ground arith;
}
