-- ===== src/Common/Text.antt =====
-- C strings, as the bytes before the terminating NUL, and the functions of string.h on them; and
-- the return codes of the DDS API that the adapter uses.
use Prim.Native.Nat.{ℕ, ◌+◌, ◌≤◌}
use Prim.Native.Char.{code}
use Prim.Native.String.{String}
use mathlib.Core.Path.{◌≡◌, refl}
use mathlib.Core.Bool.{Bool, true, false, ◌&&◌}
use mathlib.Core.List.{List, [], ◌∷◌, ◌++◌, append_assoc}
use mathlib.Core.Option.{Option, none, some}
use native.Mathlib.Omega.{arith}
use rticonnextdds_ros2_adapt.Common.Tests.{◌==◌, leb, le→leb, if◌then◌else◌}
use rticonnextdds_ros2_adapt.Common.Lists.{
  length, take, drop, length-append, length-drop, take-append, drop-append, drop-drop,
}

abbrev pub CString : Type 0
CString = List ℕ

-- The bytes of an ASCII literal.
abbrev pub codes : String → CString
codes String.[] = []
codes (String.◌∷◌ c s) = code c ∷ codes s

-- `strcmp(a, b) == 0`.
unfoldable pub str_eq : CString → CString → Bool
str_eq [] [] = true
str_eq (a ∷ s) (b ∷ t) = a == b && str_eq s t
str_eq _ _ = false

pub str_eq_refl : (s : CString) → str_eq s s ≡ true
unfolding str_eq
str_eq_refl [] = refl
str_eq_refl (a ∷ s) = ground (arith, str_eq_refl s)

pub eq_of_str_eq : (s t : CString) → str_eq s t ≡ true → s ≡ t
unfolding str_eq
eq_of_str_eq [] [] h = refl
eq_of_str_eq [] (b ∷ t) h = cc
eq_of_str_eq (a ∷ s) [] h = cc
eq_of_str_eq (a ∷ s) (b ∷ t) h = ground (arith, eq_of_str_eq s t)

-- `strncmp(s, prefix, strlen(prefix)) == 0`.
unfoldable pub starts_with : CString → CString → Bool
starts_with [] s = true
starts_with (p ∷ ps) [] = false
starts_with (p ∷ ps) (c ∷ s) = c == p && starts_with ps s

-- `memcpy(buf + off, src, strlen(src))`: a write past the end of the buffer has no defined result.
unfoldable pub memcpy : List ℕ → ℕ → List ℕ → Option (List ℕ)
memcpy buf off src =
    if leb (off + length src) (length buf)
    then some (take off buf ++ (src ++ drop (off + length src) buf))
    else none

-- A copy behind the part `out` of a buffer that is already written, where there is room.
pub memcpy_next :
    (buf out src : List ℕ)
    → length out + length src ≤ length buf
    → memcpy (out ++ drop (length out) buf) (length out) src
      ≡ some ((out ++ src) ++ drop (length (out ++ src)) buf)
unfolding memcpy
memcpy_next buf out src h =
    let rest = drop (length out) buf in
    let room : length out + length src ≤ length (out ++ rest) =
      omega (arith, length-append out rest, length-drop (length out) buf) in
    rw (
      le→leb _ _ room,
      take-append out rest,
      ← drop-drop (length out) (length src) (out ++ rest),
      drop-append out rest,
      drop-drop (length out) (length src) buf,
      length-append out src,
      append_assoc out src (drop (length out + length src) buf),
    )

-- DDS_ReturnCode_t.
pub data ReturnCode : Type 0 where
  ok error bad_parameter precondition_not_met out_of_resources : ReturnCode

abbrev pub is_ok : ReturnCode → Bool
is_ok ok = true
is_ok _ = false
