-- ===== src/Utils/Libraries.antt =====
-- The libraries that Utils/source/Utils.cpp calls: libbase64, zlib and an md5.
use mach_emu.Base.{ℕ, ◌+◌, ◌*◌, ◌/◌, ◌≤◌, ◌≡◌, Option, some, List, length}

-- What each writes to its destination; `compress` and `uncompress` are told its size, and `none`
-- is a result other than `Z_OK`.
pub record Coding : Type 0 where
  pub base64_encode : List ℕ → List ℕ
  pub base64_decode : List ℕ → List ℕ
  pub compress_bound : ℕ → ℕ
  pub compress : ℕ → List ℕ → Option (List ℕ)
  pub uncompress : ℕ → List ℕ → Option (List ℕ)
  pub md5 : List ℕ → List ℕ

-- Base64 has four characters for three bytes, with padding; zlib fits what it uncompresses if the
-- destination is large enough; an md5 has 16 bytes.
pub record IsCoding (coding : Coding) : Type 0 where
  pub length-base64_encode :
      (bin : List ℕ) → length (coding.base64_encode bin) ≡ (length bin + 2) / 3 * 4
  pub length-base64_decode : (text : List ℕ) → length (coding.base64_decode text) ≤ length text
  pub base64_decode-base64_encode :
      (bin : List ℕ) → coding.base64_decode (coding.base64_encode bin) ≡ bin
  pub uncompress-compress :
      (size n : ℕ) (bin dst : List ℕ)
      → coding.compress size bin ≡ some dst
      → length bin ≤ n
      → coding.uncompress n dst ≡ some bin
  pub length-md5 : (bin : List ℕ) → length (coding.md5 bin) ≡ 16
