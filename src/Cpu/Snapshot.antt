-- ===== src/Cpu/Snapshot.antt =====
-- `GetState`, `Save` and `Load` of Cpu/source/8080.cpp. The JSON document that `Save` formats and
-- `Load` reads is a record of its members; its text, with base64 in it, is made and read by a
-- parameter, the `Format`.
pub mod Bytes
use mach_emu.Base.{
  ℕ, ◌/◌, ◌%◌, ◌≡◌, ap, ◌∙◌, Bool, ◌&&◌, ◌==◌, if◌then◌else◌, Option, none, some, ◌⊎◌, inl, inr,
  List, [], ◌∷◌, u8, u16, u16_small, true, false, arith,
}
use mach_emu.Bits.{of_ulong}
use mach_emu.Bits.Laws.{of_ulong-eq, to_ulong-lt}
use mach_emu.Cpu.State.{Intel8080, value}
use mach_emu.Cpu.Valid.{IsValid}

-- The array of `GetState`.
unfoldable pub get_state : Intel8080 → List ℕ
get_state cpu =
    value cpu.a
    ∷ value cpu.b
    ∷ value cpu.c
    ∷ value cpu.d
    ∷ value cpu.e
    ∷ value cpu.h
    ∷ value cpu.l
    ∷ value cpu.status
    ∷ u8 (cpu.pc / 256)
    ∷ u8 (cpu.pc % 256)
    ∷ u8 (cpu.sp / 256)
    ∷ u8 (cpu.sp % 256)
    ∷ []

-- `uuid` holds the bytes that the base64 text stands for.
pub record Document : Type 0 where
  pub uuid : List ℕ
  pub a : ℕ
  pub b : ℕ
  pub c : ℕ
  pub d : ℕ
  pub e : ℕ
  pub h : ℕ
  pub l : ℕ
  pub s : ℕ
  pub pc : ℕ
  pub sp : ℕ

-- `snprintf` with base64, and `nlohmann::json::parse` with its accessors, which throw on a text
-- that is no such document. A document that is printed is read back.
pub record Format (Text : Type 0) : Type 0 where
  pub print : Document → Text
  pub parse : Text → Option Document
  pub parse-print : (d : Document) → parse (print d) ≡ some d

abbrev pub uuid : List ℕ
uuid =
    0x3b ∷ 0xe8 ∷ 0x4f ∷ 0x1f ∷ 0x9d ∷ 0x7a ∷ 0x4b ∷ 0x70 ∷ 0xa5 ∷ 0x45 ∷ 0xd9 ∷ 0xf3 ∷ 0x49 ∷ 0x12
    ∷ 0xfc ∷ 0xad ∷ []

-- The comparison of the sizes and the bytes.
unfoldable pub same_bytes : List ℕ → List ℕ → Bool
same_bytes [] [] = true
same_bytes [] (y ∷ ys) = false
same_bytes (x ∷ xs) [] = false
same_bytes (x ∷ xs) (y ∷ ys) = x == y && same_bytes xs ys

unfoldable pub document : Intel8080 → Document
document cpu = record {
  uuid = uuid;
  a = value cpu.a;
  b = value cpu.b;
  c = value cpu.c;
  d = value cpu.d;
  e = value cpu.e;
  h = value cpu.h;
  l = value cpu.l;
  s = value cpu.status;
  pc = cpu.pc;
  sp = cpu.sp;
}

-- The exceptions of `Load`.
pub data LoadFailure : Type 0 where
  malformed incompatible_cpu : LoadFailure

unfoldable pub restore : Document → Intel8080 → LoadFailure ⊎ Intel8080
unfolding same_bytes
restore t cpu =
    if same_bytes t.uuid uuid
    then inr (record cpu {
      a = of_ulong (u8 t.a);
      b = of_ulong (u8 t.b);
      c = of_ulong (u8 t.c);
      d = of_ulong (u8 t.d);
      e = of_ulong (u8 t.e);
      h = of_ulong (u8 t.h);
      l = of_ulong (u8 t.l);
      status = of_ulong (u8 t.s);
      pc = u16 t.pc;
      sp = u16 t.sp;
    })
    else inl incompatible_cpu

unfoldable pub restore_parsed : Option Document → Intel8080 → LoadFailure ⊎ Intel8080
unfolding restore
restore_parsed none cpu = inl malformed
restore_parsed (some t) cpu = restore t cpu

restore-document :
    (saved cpu : Intel8080)
    → IsValid saved
    → restore (document saved) cpu ≡ inr (record saved { iff = cpu.iff; opcode = cpu.opcode })
unfolding restore document same_bytes
restore-document saved cpu h = λ i. inr (record saved {
  a = of_ulong-eq (u8 (value saved.a)) saved.a (omega (arith, to_ulong-lt)) i;
  b = of_ulong-eq (u8 (value saved.b)) saved.b (omega (arith, to_ulong-lt)) i;
  c = of_ulong-eq (u8 (value saved.c)) saved.c (omega (arith, to_ulong-lt)) i;
  d = of_ulong-eq (u8 (value saved.d)) saved.d (omega (arith, to_ulong-lt)) i;
  e = of_ulong-eq (u8 (value saved.e)) saved.e (omega (arith, to_ulong-lt)) i;
  h = of_ulong-eq (u8 (value saved.h)) saved.h (omega (arith, to_ulong-lt)) i;
  l = of_ulong-eq (u8 (value saved.l)) saved.l (omega (arith, to_ulong-lt)) i;
  status = of_ulong-eq (u8 (value saved.status)) saved.status (omega (arith, to_ulong-lt)) i;
  pc = u16_small saved.pc h.pc_fits i;
  sp = u16_small saved.sp h.sp_fits i;
  iff = cpu.iff;
  opcode = cpu.opcode;
})

module _ {Text : Type 0} (format : Format Text) where
  unfoldable pub save : Intel8080 → Text
  unfolding document
  save cpu = format.print (document cpu)

  unfoldable pub load : Text → Intel8080 → LoadFailure ⊎ Intel8080
  unfolding restore_parsed
  load text cpu = restore_parsed (format.parse text) cpu

module _ {Text : Type 0} (format : Format Text) where
  -- A valid cpu that is saved and then loaded into any other is there again, with all its
  -- registers, flags, program counter and stack pointer; but whether interrupts are enabled, and
  -- the last opcode, stay as they were in the cpu that loads.
  pub load-save :
      (saved cpu : Intel8080)
      → IsValid saved
      → load format (save format saved) cpu
        ≡ inr (record saved { iff = cpu.iff; opcode = cpu.opcode })
  unfolding load save restore_parsed
  load-save saved cpu h =
      ap (λ parsed. restore_parsed parsed cpu) (format.parse-print (document saved))
      ∙ restore-document saved cpu h
