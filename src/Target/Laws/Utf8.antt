-- ===== src/Target/Laws/Utf8.antt =====
-- The bytes of a text are read back as the text.
use hop_rs.Prelude.{
  Bool-cases, List, Text, [], and_parts, ap, arith, every, false, inl, inr, leb, ltb, nat_eq, refl,
  some, suc, true, ℕ, ◌%◌, ◌*◌, ◌++◌, ◌+◌, ◌-◌, ◌/◌, ◌<◌, ◌∙◌, ◌∷◌, ◌≡◌, ◌≤◌,
}
use hop_rs.Prelude.Utf8.{is_scalar, prepend, read_utf8, from_utf8}
use hop_rs.Apply.Hashes.{utf8_char, as_bytes}

module _ (b : ℕ) (bytes : List ℕ) where
  read_two : 0xc0 ≤ b → b < 0xe0 → read_utf8 0 0 0 (b ∷ bytes) ≡ read_utf8 1 (b - 0xc0) 0x80 bytes
  unfolding read_utf8
  read_two low high = ground arith

  read_three :
      0xe0 ≤ b → b < 0xf0 → read_utf8 0 0 0 (b ∷ bytes) ≡ read_utf8 2 (b - 0xe0) 0x800 bytes
  unfolding read_utf8
  read_three low high = ground arith

  read_four :
      0xf0 ≤ b → b < 0xf8 → read_utf8 0 0 0 (b ∷ bytes) ≡ read_utf8 3 (b - 0xf0) 0x10000 bytes
  unfolding read_utf8
  read_four low high = ground arith

  read_one : ltb b 0x80 ≡ true → read_utf8 0 0 0 (b ∷ bytes) ≡ prepend b (read_utf8 0 0 0 bytes)
  unfolding read_utf8
  read_one low = rw low refl

  -- A byte within a character, and its last one.
  read_more :
      (pending point next least : ℕ)
      → 0x80 ≤ b
      → b < 0xc0
      → point * 64 + (b - 0x80) ≡ next
      → read_utf8 (suc (suc pending)) point least (b ∷ bytes)
        ≡ read_utf8 (suc pending) next least bytes
  unfolding read_utf8
  read_more pending point next least low high e =
      let from : leb 0x80 b ≡ true = ground arith in
      let upto : ltb b 0xc0 ≡ true = ground arith in
      let middle : nat_eq (suc pending) 0 ≡ false = ground arith in rw (from, upto, middle, e) refl

  read_last :
      (point c least : ℕ)
      → 0x80 ≤ b
      → b < 0xc0
      → point * 64 + (b - 0x80) ≡ c
      → least ≤ c
      → is_scalar c ≡ true
      → read_utf8 1 point least (b ∷ bytes) ≡ prepend c (read_utf8 0 0 0 bytes)
  unfolding read_utf8
  read_last point c least low high e size h = rw e (ground (arith))

module _ (c : ℕ) (bytes : List ℕ) (h : is_scalar c ≡ true) where
  two_bytes :
      0x80 ≤ c
      → c < 0x800
      → read_utf8 0 0 0 ((0xc0 + c / 64) ∷ (0x80 + c % 64) ∷ bytes)
        ≡ prepend c (read_utf8 0 0 0 bytes)
  two_bytes low high =
      read_two (0xc0 + c / 64) _ (omega arith) (omega arith)
      ∙ read_last (0x80 + c % 64) bytes (0xc0 + c / 64 - 0xc0) c 0x80 (omega arith) (omega arith)
          (omega arith) low h

  three_bytes :
      0x800 ≤ c
      → c < 0x10000
      → read_utf8 0 0 0 ((0xe0 + c / 4096) ∷ (0x80 + c / 64 % 64) ∷ (0x80 + c % 64) ∷ bytes)
        ≡ prepend c (read_utf8 0 0 0 bytes)
  three_bytes low high =
      read_three (0xe0 + c / 4096) _ (omega arith) (omega arith)
      ∙ read_more (0x80 + c / 64 % 64) _ 0 (0xe0 + c / 4096 - 0xe0) (c / 64) 0x800 (omega arith)
          (omega arith) (omega arith)
      ∙ read_last (0x80 + c % 64) bytes (c / 64) c 0x800 (omega arith) (omega arith) (omega arith)
          low h

  four_bytes :
      0x10000 ≤ c
      → c < 0x110000
      → read_utf8 0 0 0 (
          (0xf0 + c / 262144)
          ∷ (0x80 + c / 4096 % 64)
          ∷ (0x80 + c / 64 % 64)
          ∷ (0x80 + c % 64)
          ∷ bytes)
        ≡ prepend c (read_utf8 0 0 0 bytes)
  four_bytes low high =
      read_four (0xf0 + c / 262144) _ (omega arith) (omega arith)
      ∙ read_more (0x80 + c / 4096 % 64) _ 1 (0xf0 + c / 262144 - 0xf0) (c / 4096) 0x10000
          (omega arith) (omega arith) (omega arith)
      ∙ read_more (0x80 + c / 64 % 64) _ 0 (c / 4096) (c / 64) 0x10000 (omega arith) (omega arith)
          (omega arith)
      ∙ read_last (0x80 + c % 64) bytes (c / 64) c 0x10000 (omega arith) (omega arith) (omega arith)
          low h

read-utf8_char :
    (c : ℕ) (bytes : List ℕ)
    → is_scalar c ≡ true
    → read_utf8 0 0 0 (utf8_char c ++ bytes) ≡ prepend c (read_utf8 0 0 0 bytes)
unfolding utf8_char
read-utf8_char c bytes h = elim (Bool-cases (ltb c 0x80)) [
  | inl one ↦ rw one (read_one c bytes one)
  | inr more ↦ elim (Bool-cases (ltb c 0x800)) [
    | inl two ↦ rw (more, two) (two_bytes c bytes h (ground arith) (ground arith))
    | inr long ↦ elim (Bool-cases (ltb c 0x10000)) [
      | inl three ↦ rw (more, long, three) (three_bytes c bytes h (ground arith) (ground arith))
      | inr longest ↦
          rw (more, long, longest)
            (four_bytes c bytes h (ground arith) (unfold is_scalar in ground arith))
    ]
  ]
]

-- A text of scalar values, as every text of the program is, is what its bytes are read as.
pub from_utf8-as_bytes : (s : Text) → every is_scalar s ≡ true → from_utf8 (as_bytes s) ≡ some s
unfolding from_utf8 as_bytes
from_utf8-as_bytes [] h = refl
from_utf8-as_bytes (c ∷ s) h =
    let (one, rest) = and_parts (is_scalar c) (every is_scalar s) h in
    read-utf8_char c (as_bytes s) one ∙ ap (prepend c) (from_utf8-as_bytes s rest)
