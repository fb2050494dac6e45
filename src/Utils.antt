-- ===== src/Utils.antt =====
-- Utils/source/Utils.cpp: bytes as text and back, for the state of the machine. libbase64, zlib and
-- the md5 library are a parameter, `Coding`. Bytes and characters are numbers below 256, and a
-- length stays below 2^32.
pub mod Libraries
pub mod RoundTrip
use mach_emu.Base.{
  ℕ, ◌+◌, ◌*◌, ◌/◌, Bool, true, false, not, leb, if◌then◌else◌, Option, none, some, ◌⊎◌, inl, inr,
  List, length, String, same_text,
}
use mach_emu.Utils.Libraries.{Coding}

-- The exceptions; and `out_of_buffer` is no exception, but a library that writes past the end of
-- the memory it was given, after which C++ promises nothing.
pub data Failure : Type 0 where
  invalid_encoder invalid_compressor compression_failed decompression_failed out_of_buffer : Failure

-- What a library writes to a buffer of the given size, when the buffer is then resized to it.
unfoldable pub write_buffer : ℕ → List ℕ → Failure ⊎ List ℕ
write_buffer size written = if leb (length written) size then inr written else inl out_of_buffer

unfoldable pub decompressed : Option (List ℕ) → Failure ⊎ List ℕ
decompressed none = inl decompression_failed
decompressed (some dst) = inr dst

module _ ⦃coding : Coding⦄ where
  -- The `encode` of `BinToTxt`: `srcLen * 1.5`.
  unfoldable pub encode : List ℕ → Failure ⊎ List ℕ
  unfolding write_buffer
  encode src = write_buffer (length src * 3 / 2) (coding.base64_encode src)

  unfoldable pub encode_compressed : Option (List ℕ) → Failure ⊎ List ℕ
  unfolding encode
  encode_compressed none = inl compression_failed
  encode_compressed (some dst) = encode dst

-- `zlib` tells whether ENABLE_ZLIB is defined.
module _ ⦃coding : Coding⦄ (zlib : Bool) where
  unfoldable pub bin_to_txt : String → String → List ℕ → Failure ⊎ List ℕ
  unfolding encode encode_compressed
  bin_to_txt encoder compressor bin =
      if not (same_text encoder "base64")
      then inl invalid_encoder
      else if not (same_text compressor "none")
      then (if zlib
          then (if same_text compressor "zlib"
              then encode_compressed (coding.compress (coding.compress_bound (length bin)) bin)
              else inl invalid_compressor)
          else inl invalid_compressor)
      else encode bin

  -- `TxtToBin` once the text is decoded.
  unfoldable pub decompress : String → ℕ → Failure ⊎ List ℕ → Failure ⊎ List ℕ
  unfolding decompressed
  decompress decompressor dst_size (inl e) = inl e
  decompress decompressor dst_size (inr bin) =
      if not (same_text decompressor "none")
      then (if zlib
          then (if same_text decompressor "zlib"
              then decompressed (coding.uncompress dst_size bin)
              else inl invalid_compressor)
          else inl invalid_compressor)
      else inr bin

  unfoldable pub txt_to_bin : String → String → ℕ → List ℕ → Failure ⊎ List ℕ
  unfolding decompress write_buffer
  txt_to_bin decoder decompressor dst_size src =
      if not (same_text decoder "base64")
      then inl invalid_encoder
      else decompress decompressor dst_size (write_buffer (length src) (coding.base64_decode src))
