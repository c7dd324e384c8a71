-- ===== src/Segment/Bytes.antt =====
-- crates/storage/src/segment/format.rs: errors, little-endian integers and byte buffers. A byte
-- slice is a list of numbers.
use native.Mathlib.Nat.{pow-suc}
use ai_ontology_com.Common.{
  ℕ, zero, suc, ◌+◌, ◌-◌, ◌*◌, ◌/◌, ◌%◌, ◌^◌, ◌≤◌, ◌<◌, ◌≡◌, refl, List, [], ◌∷◌, ◌++◌, arith, leb,
  if◌then◌else◌, length, take, drop, replicate, length-append, take-append_of_length,
  drop-append_of_length,
}
use ai_ontology_com.Common.Result.{Result, ok, err}

pub data FormatError : Type 0 where
  bad_magic : List ℕ → List ℕ → FormatError
  unsupported_version : ℕ → FormatError
  bad_entry_size : ℕ → FormatError
  -- at, need, have
  truncated : ℕ → ℕ → ℕ → FormatError
  unknown_kind : ℕ → FormatError
  unknown_codec : ℕ → FormatError
  -- at, expected, actual
  crc_mismatch : ℕ → ℕ → ℕ → FormatError

-- `x.to_le_bytes()` of a `w`-byte integer
unfoldable pub to_le_bytes : ℕ → ℕ → List ℕ
to_le_bytes zero n = []
to_le_bytes (suc w) n = (n % 256) ∷ to_le_bytes w (n / 256)

unfoldable pub from_le_bytes : List ℕ → ℕ
from_le_bytes [] = 0
from_le_bytes (b ∷ bs) = b + 256 * from_le_bytes bs

-- `&buf[at..at + len]`, `buf.get(at..at + len)`
abbrev pub slice : List ℕ → ℕ → ℕ → List ℕ
slice buf at len = take len (drop at buf)

-- `saturating_sub` is the subtraction of ℕ
unfoldable pub need : List ℕ → ℕ → ℕ → Result FormatError (List ℕ)
need buf at len =
    if leb (at + len) (length buf)
    then ok (slice buf at len)
    else err (truncated at len (length buf - at))

unfoldable pub u16_at : List ℕ → ℕ → ℕ
u16_at buf at = from_le_bytes (slice buf at 2)

unfoldable pub u32_at : List ℕ → ℕ → ℕ
u32_at buf at = from_le_bytes (slice buf at 4)

unfoldable pub u64_at : List ℕ → ℕ → ℕ
u64_at buf at = from_le_bytes (slice buf at 8)

-- `b[at..at + bytes.len()].copy_from_slice(bytes)`
abbrev pub copy_from_slice : List ℕ → ℕ → List ℕ → List ℕ
copy_from_slice b at bytes = take at b ++ (bytes ++ drop (at + length bytes) b)

-- `out.resize(n, 0)`
unfoldable pub resize : List ℕ → ℕ → List ℕ
resize out n = take n out ++ replicate (n - length out) 0

pub length-to_le_bytes : (w n : ℕ) → length (to_le_bytes w n) ≡ w
unfolding to_le_bytes
length-to_le_bytes zero n = refl
length-to_le_bytes (suc w) n = omega (arith, length-to_le_bytes w (n / 256))

pub from_le_bytes-to_le_bytes : (w n : ℕ) → n < 256 ^ w → from_le_bytes (to_le_bytes w n) ≡ n
unfolding from_le_bytes to_le_bytes
from_le_bytes-to_le_bytes zero n h = omega arith
from_le_bytes-to_le_bytes (suc w) n h =
    omega (arith, from_le_bytes-to_le_bytes w (n / 256) (omega (arith, pow-suc 256 w)))

pub need-append :
    (out mid rest : List ℕ) → need (out ++ (mid ++ rest)) (length out) (length mid) ≡ ok mid
unfolding need
need-append out mid rest = rw (drop-append_of_length (length out) out (mid ++ rest) refl) (
    rw (take-append_of_length (length mid) mid rest refl)
      (ground (arith, length-append out (mid ++ rest), length-append mid rest)))

-- The slice that lies behind `out` in the buffer.
pub need_lem :
    (buf out mid rest : List ℕ) (at len : ℕ)
    → buf ≡ out ++ (mid ++ rest)
    → at ≡ length out
    → len ≡ length mid
    → need buf at len ≡ ok mid
need_lem buf out mid rest at len eb ea el = rw (eb, ea, el) (need-append out mid rest)

pub need_short :
    (buf : List ℕ) (at len : ℕ)
    → length buf < at + len
    → need buf at len ≡ err (truncated at len (length buf - at))
unfolding need
need_short buf at len h = ground arith

pub need_fits :
    (buf : List ℕ) (at len : ℕ) → at + len ≤ length buf → need buf at len ≡ ok (slice buf at len)
unfolding need
need_fits buf at len h = ground arith
