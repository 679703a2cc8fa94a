-- ===== src/Common/Words.antt =====
-- Machine words as native numbers, and byte strings. A fixed array `[u8; n]` is the number that its
-- bytes spell, first byte highest, so that it lies below `256 ^ n`.
use Prim.Native.Nat.{ℕ, zero, suc, ◌+◌, ◌-◌, ◌*◌, ◌/◌, ◌%◌, ◌^◌, ◌<◌}
use mathlib.Core.Path.{◌≡◌, refl, ap, ◌∙◌}
use mathlib.Core.List.{List, [], ◌∷◌, ◌++◌}
use native.Mathlib.Nat.{pow-suc}
use native.Mathlib.Omega.{arith}
use Prim.Native.Char.{code}
use Prim.Native.String.{String}
use static.Common.Tests.{leb, if◌then◌else◌}
use static.Common.Lists.{length, length-append}

abbrev pub u32_mod : ℕ
u32_mod = 2 ^ 32

abbrev pub u64_mod : ℕ
u64_mod = 2 ^ 64

-- `a + b` and `a += b` on `u32` and `u64` in a release build, which wraps.
abbrev pub add32 : ℕ → ℕ → ℕ
add32 a b = (a + b) % u32_mod

abbrev pub add64 : ℕ → ℕ → ℕ
add64 a b = (a + b) % u64_mod

-- `a - b` on `u64` in a release build.
abbrev pub sub64 : ℕ → ℕ → ℕ
sub64 a b = (a + u64_mod - b) % u64_mod

-- `a.saturating_add(b)` on `u64`; `saturating_sub` is the subtraction of ℕ.
abbrev pub saturating_add64 : ℕ → ℕ → ℕ
saturating_add64 a b = if leb u64_mod (a + b) then u64_mod - 1 else a + b

-- The `n` bytes of a number, highest first (`to_be_bytes`).
unfoldable pub be_bytes : ℕ → ℕ → List ℕ
be_bytes zero x = []
be_bytes (suc n) x = be_bytes n (x / 256) ++ (x % 256 ∷ [])

-- The number that bytes spell, from an accumulator (`from_be_bytes`).
unfoldable pub from_be_acc : ℕ → List ℕ → ℕ
from_be_acc acc [] = acc
from_be_acc acc (b ∷ bs) = from_be_acc (acc * 256 + b) bs

abbrev pub from_be : List ℕ → ℕ
from_be = from_be_acc 0

pub length-be_bytes : (n x : ℕ) → length (be_bytes n x) ≡ n
unfolding be_bytes
length-be_bytes zero x = refl
length-be_bytes (suc n) x =
    omega (arith, length-append (be_bytes n (x / 256)) (x % 256 ∷ []), length-be_bytes n (x / 256))

from_be_acc-append :
    (acc : ℕ) (xs : List ℕ) (b : ℕ)
    → from_be_acc acc (xs ++ (b ∷ [])) ≡ from_be_acc acc xs * 256 + b
unfolding from_be_acc
from_be_acc-append acc [] b = refl
from_be_acc-append acc (x ∷ xs) b = from_be_acc-append (acc * 256 + x) xs b

-- A number that fits is read back from its bytes.
pub from_be-be_bytes : (n x : ℕ) → x < 256 ^ n → from_be (be_bytes n x) ≡ x
unfolding be_bytes from_be_acc
from_be-be_bytes zero x h = omega arith
from_be-be_bytes (suc n) x h =
    from_be_acc-append 0 (be_bytes n (x / 256)) (x % 256)
    ∙ (ap (λ (t : ℕ). t * 256 + x % 256) (from_be-be_bytes n (x / 256) (high n x h)) ∙ omega arith)
  where
    high : (n x : ℕ) → x < 256 ^ suc n → x / 256 < 256 ^ n
    high n x h = omega (arith, pow-suc 256 n)

-- The bytes of an ASCII text.
abbrev pub codes : String → List ℕ
codes String.[] = []
codes (String.◌∷◌ c s) = code c ∷ codes s
