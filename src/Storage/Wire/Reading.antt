-- ===== src/Storage/Wire/Reading.antt =====
-- What a reader finds where a writer has put it.
use static.Common.{
  ℕ, ◌+◌, ◌-◌, ◌%◌, ◌^◌, ◌<◌, ◌≤◌, ◌≡◌, refl, sym, ◌∙◌, ap, List, [], ◌∷◌, ◌++◌, length, arith,
  be_bytes, from_be, slice, drop, drop-append, take-append, drop-drop, length-append,
  length-be_bytes, from_be-be_bytes, u32_mod, All, false, true, Bool, ◌==◌, take_of_length-le,
  subst, ltb,
}
use mathlib.Core.List.{append_assoc}
use static.Storage.Lease.{ok}
use static.Storage.Wire.{
  take_array, take_bytes, take_limited, take_sized, sized, flag_byte, RouteHopInfo, ReturnRoute,
}

-- From an offset on, the bytes are these.
unfoldable pub At : List ℕ → ℕ → List ℕ → Type 0
At bytes offset rest = (drop offset bytes ≡ rest) × (offset + length rest ≡ length bytes)

pub At-start : (bytes : List ℕ) → At bytes 0 bytes
unfolding At drop
At-start bytes = (refl, omega arith)

-- The part that stands at an offset is its slice, and what follows stands behind it.
pub At-slice :
    (bytes part rest : List ℕ) (start end : ℕ)
    → At bytes start (part ++ rest)
    → end ≡ start + length part
    → slice bytes start end ≡ part
unfolding At
At-slice bytes part rest start end (e, l) h =
    rw e (take-append part rest (end - start) (omega arith))

pub At-next :
    (bytes part rest : List ℕ) (start end : ℕ)
    → At bytes start (part ++ rest)
    → end ≡ start + length part
    → At bytes end rest
unfolding At
At-next bytes part rest start end (e, l) h = (
  sym (drop-drop (length part) start end bytes (omega arith))
      ∙ (ap (drop (length part)) e ∙ drop-append part rest (length part) refl),
  omega (arith, l, length-append part rest),
)

-- A number of a fixed width at an offset.
pub At-number :
    (bytes rest : List ℕ) (width x start end : ℕ)
    → x < 256 ^ width
    → At bytes start (be_bytes width x ++ rest)
    → end ≡ start + width
    → (from_be (slice bytes start end) ≡ x) × At bytes end rest
At-number bytes rest width x start end fits at h =
    let size = length-be_bytes width x in
    (
      ap from_be (At-slice bytes (be_bytes width x) rest start end at (omega arith))
          ∙ from_be-be_bytes width x fits,
      At-next bytes (be_bytes width x) rest start end at (omega arith),
    )

pub At-room :
    (bytes rest : List ℕ) (start : ℕ) → At bytes start rest → start + length rest ≡ length bytes
unfolding At
At-room bytes rest start at = at.1

pub At-rest :
    (bytes rest : List ℕ) (start : ℕ)
    → At bytes start rest
    → slice bytes start (start + length rest) ≡ rest
unfolding At
At-rest bytes rest start (e, l) =
    rw e (take_of_length-le (start + length rest - start) rest (omega arith))

pub take_array-At :
    (bytes rest : List ℕ) (width x start : ℕ)
    → x < 256 ^ width
    → At bytes start (be_bytes width x ++ rest)
    → (take_array width bytes start ≡ ok (x, start + width)) × At bytes (start + width) rest
unfolding take_array
take_array-At bytes rest width x start fits at =
    let (value, next) = At-number bytes rest width x start (start + width) fits at refl in
    let room = At-room bytes rest (start + width) next in (rw value (ground (arith, room)), next)

pub take_bytes-At :
    (bytes part rest : List ℕ) (start : ℕ)
    → At bytes start (part ++ rest)
    → (take_bytes (length part) bytes start ≡ ok (part, start + length part))
      × At bytes (start + length part) rest
unfolding take_bytes
take_bytes-At bytes part rest start at =
    let value = At-slice bytes part rest start (start + length part) at refl in
    let next = At-next bytes part rest start (start + length part) at refl in
    let room = At-room bytes rest (start + length part) next in
    (rw value (ground (arith, room)), next)

pub take_sized-At :
    (bytes part rest : List ℕ) (start : ℕ)
    → length part < u32_mod
    → At bytes start (sized part ++ rest)
    → (take_sized bytes start ≡ ok (part, start + 4 + length part))
      × At bytes (start + 4 + length part) rest
unfolding take_sized sized
take_sized-At bytes part rest start fits at =
    let at' = subst (At bytes start) (append_assoc (be_bytes 4 _) part rest) at in
    let same : length part % u32_mod ≡ length part = omega (arith, fits) in
    let (count, at_part) = take_array-At bytes (part ++ rest) 4 _ start (omega arith) at' in
    let (value, next) = take_bytes-At bytes part rest (start + 4) at_part in
    (rw (count, same) value, next)

pub take_limited-At :
    (limit : ℕ) (bytes part rest : List ℕ) (start : ℕ)
    → length part ≤ limit
    → limit < u32_mod
    → At bytes start (sized part ++ rest)
    → (take_limited limit bytes start ≡ ok (part, start + 4 + length part))
      × At bytes (start + 4 + length part) rest
unfolding take_limited sized
take_limited-At limit bytes part rest start few small at =
    let at' = subst (At bytes start) (append_assoc (be_bytes 4 _) part rest) at in
    let same : length part % u32_mod ≡ length part = omega (arith, few, small) in
    let within : ltb limit (length part) ≡ false = ground (arith, few) in
    let (count, at_part) = take_array-At bytes (part ++ rest) 4 _ start (omega arith) at' in
    let (value, next) = take_bytes-At bytes part rest (start + 4) at_part in
    (rw (count, same, within) value, next)

-- Behind the byte of the type.
pub At-type : (b : ℕ) (bytes : List ℕ) → At (b ∷ bytes) 1 bytes
At-type b bytes = At-next (b ∷ bytes) (b ∷ []) bytes 0 1 (At-start (b ∷ bytes)) refl

-- The hops and the destination of a route fit their widths.
abbrev pub IsHop : RouteHopInfo → Type 0
IsHop hop = (hop.public_key < 256 ^ 32) × (hop.node_id < 256 ^ 16)

pub record IsRoute (route : ReturnRoute) : Type 0 where
  pub hops : All IsHop route.hops
  pub few : length route.hops ≤ 32
  pub destination : route.destination < 256 ^ 16

-- The same inside a message that is followed by padding.
pub take_array-in :
    (bytes more pad : List ℕ) (width x start : ℕ)
    → x < 256 ^ width
    → At bytes start ((be_bytes width x ++ more) ++ pad)
    → (take_array width bytes start ≡ ok (x, start + width))
      × At bytes (start + width) (more ++ pad)
take_array-in bytes more pad width x start fits at =
    take_array-At bytes (more ++ pad) width x start fits
      (subst (At bytes start) (append_assoc (be_bytes width x) more pad) at)

-- A flag is one byte, and is read back.
pub flag_found : (found : Bool) → (flag_byte found == 1) ≡ found
flag_found true = refl
flag_found false = refl

pub flag_byte-lt : (found : Bool) → flag_byte found < 256 ^ 1
flag_byte-lt true = omega arith
flag_byte-lt false = omega arith

pub take_limited-in :
    (limit : ℕ) (bytes part more pad : List ℕ) (start : ℕ)
    → length part ≤ limit
    → limit < u32_mod
    → At bytes start ((sized part ++ more) ++ pad)
    → (take_limited limit bytes start ≡ ok (part, start + 4 + length part))
      × At bytes (start + 4 + length part) (more ++ pad)
take_limited-in limit bytes part more pad start few small at =
    take_limited-At limit bytes part (more ++ pad) start few small
      (subst (At bytes start) (append_assoc (sized part) more pad) at)

pub take_sized-in :
    (bytes part more pad : List ℕ) (start : ℕ)
    → length part < u32_mod
    → At bytes start ((sized part ++ more) ++ pad)
    → (take_sized bytes start ≡ ok (part, start + 4 + length part))
      × At bytes (start + 4 + length part) (more ++ pad)
take_sized-in bytes part more pad start fits at =
    take_sized-At bytes part (more ++ pad) start fits
      (subst (At bytes start) (append_assoc (sized part) more pad) at)
