-- ===== src/Prelude/Utf8.antt =====
-- `str::as_bytes` is in Apply.Hashes; this is its inverse, `String::from_utf8`.
use hop_rs.Prelude.Tests.{ltb, leb, nat_eq, if◌then◌else◌}
use Prim.Native.Nat.{ℕ, zero, suc, ◌+◌, ◌*◌, ◌-◌}
use mathlib.Core.Bool.{Bool, not, ◌&&◌}
use mathlib.Core.Option.{Option, none, some}
use mathlib.Core.List.{List, [], ◌∷◌}

-- A code point that is no surrogate.
unfoldable pub is_scalar : ℕ → Bool
is_scalar c = ltb c 0x110000 && not (leb 0xd800 c && ltb c 0xe000)

abbrev pub prepend : ℕ → Option (List ℕ) → Option (List ℕ)
prepend c none = none
prepend c (some s) = some (c ∷ s)

-- What is read so far of a character, of which `pending` bytes are missing; `least` is the smallest
-- code point that may be written with as many bytes.
unfoldable pub read_utf8 : ℕ → ℕ → ℕ → List ℕ → Option (List ℕ)
unfolding is_scalar
read_utf8 zero point least [] = some []
read_utf8 (suc pending) point least [] = none
read_utf8 zero point least (b ∷ bytes) =
    let one = prepend b (read_utf8 0 0 0 bytes) in
    let two = read_utf8 1 (b - 0xc0) 0x80 bytes in
    let three = read_utf8 2 (b - 0xe0) 0x800 bytes in
    let four = read_utf8 3 (b - 0xf0) 0x10000 bytes in
    if ltb b 0x80
    then one
    else if ltb b 0xc0
    then none
    else if ltb b 0xe0
    then two
    else if ltb b 0xf0
    then three
    else if ltb b 0xf8
    then four
    else none
read_utf8 (suc pending) point least (b ∷ bytes) =
    let whole = point * 64 + (b - 0x80) in
    let done = prepend whole (read_utf8 0 0 0 bytes) in
    let more = read_utf8 pending whole least bytes in
    if not (leb 0x80 b && ltb b 0xc0)
    then none
    else if nat_eq pending 0
    then (if leb least whole && is_scalar whole then done else none)
    else more

-- `String::from_utf8`
unfoldable pub from_utf8 : List ℕ → Option (List ℕ)
unfolding read_utf8
from_utf8 bytes = read_utf8 0 0 0 bytes
