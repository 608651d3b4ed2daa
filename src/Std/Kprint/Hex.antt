-- ===== src/Std/Kprint/Hex.antt =====
-- `kprint_hex_uint` of std/kprint.c prints the number in hexadecimal.
use brackos.Base.{
  ℕ, zero, suc, ◌+◌, ◌-◌, ◌*◌, ◌/◌, ◌%◌, ◌^◌, ◌≤◌, ◌<◌, ◌≡◌, refl, ◌∙◌, inl, inr, Bool, true, false,
  not, ◌&&◌, ◌||◌, List, [], ◌∷◌, ◌++◌, leb, ◌==◌, if◌then◌else◌, Bool-cases, length, length-append,
  arith,
}
use brackos.Std.Kprint.{hex_char, kputch_hex, hex_bytes, kprint_hex_uint}

-- the number that a hexadecimal digit of either case stands for
unfoldable pub hex_digit : ℕ → ℕ
hex_digit c = if leb b'a' c then c - b'a' + 10 else if leb b'A' c then c - b'A' + 10 else c - b'0'

abbrev pub hex_value : ℕ → List ℕ → ℕ
hex_value acc [] = acc
hex_value acc (c ∷ cs) = hex_value (acc * 16 + hex_digit c) cs

-- what `P` says of each number below `n`
abbrev Upto : (n : ℕ) → (ℕ → Type 0) → Type 0
Upto zero P = Unit
Upto (suc n) P = P n × Upto n P

Upto-at : (P : ℕ → Type 0) (n d : ℕ) → Upto n P → d < n → P d
Upto-at P zero d all h = absurd (omega arith)
Upto-at P (suc n) d all h = elim (Bool-cases (d == n)) [
  | inl last ↦ let e : d ≡ n = ground arith in rw e (all.0)
  | inr other ↦ Upto-at P n d all.1 (ground arith)
]

-- a hexadecimal digit, of the case that is asked for
abbrev pub is_hex : (capital : Bool) → ℕ → Bool
is_hex capital c =
    leb b'0' c && leb c b'9'
    || (if capital then leb b'A' c && leb c b'F' else leb b'a' c && leb c b'f')

abbrev pub AllHex : (capital : Bool) → List ℕ → Type 0
AllHex capital [] = Unit
AllHex capital (c ∷ cs) = (is_hex capital c ≡ true) × AllHex capital cs

sixteen_hex : (capital : Bool) → Upto 16 (λ d. is_hex capital (hex_char capital d) ≡ true)
unfolding hex_char
sixteen_hex true = (
  refl,
  (
    refl,
    (
      refl,
      (
        refl,
        (
          refl,
          (
            refl,
            (refl, (refl, (refl, (refl, (refl, (refl, (refl, (refl, (refl, (refl, tt)))))))))),
          ),
        ),
      ),
    ),
  ),
)
sixteen_hex false = (
  refl,
  (
    refl,
    (
      refl,
      (
        refl,
        (
          refl,
          (
            refl,
            (refl, (refl, (refl, (refl, (refl, (refl, (refl, (refl, (refl, (refl, tt)))))))))),
          ),
        ),
      ),
    ),
  ),
)

AllHex-append :
    (capital : Bool) (xs ys : List ℕ)
    → AllHex capital xs
    → AllHex capital ys
    → AllHex capital (xs ++ ys)
AllHex-append capital [] ys h k = k
AllHex-append capital (x ∷ xs) ys h k = (h.0, AllHex-append capital xs ys h.1 k)

hex_char-is_hex : (capital : Bool) (d : ℕ) → d < 16 → is_hex capital (hex_char capital d) ≡ true
hex_char-is_hex capital d h =
    Upto-at (λ k. is_hex capital (hex_char capital k) ≡ true) 16 d (sixteen_hex capital) h

kputch_hex-AllHex :
    (b : ℕ) (capital pad : Bool) → b < 256 → AllHex capital (kputch_hex b capital pad)
unfolding kputch_hex
kputch_hex-AllHex b capital pad h =
    let high = hex_char-is_hex capital (b / 16) (omega arith) in
    let low = hex_char-is_hex capital (b % 16) (omega arith) in
    elim (Bool-cases (not (b / 16 == 0) || pad)) [
      | inl two ↦ rw two (high, (low, tt))
      | inr one ↦ rw one (low, tt)
    ]

hex_bytes-AllHex :
    (i n : ℕ) (capital pad first : Bool) → AllHex capital (hex_bytes i n capital pad first)
unfolding hex_bytes
hex_bytes-AllHex zero n capital pad first = tt
hex_bytes-AllHex (suc i) n capital pad first =
    let byte = n / 2 ^ (8 * i) % 256 in
    elim (Bool-cases (first && byte == 0)) [
      | inl z ↦ rw z (hex_bytes-AllHex i n capital pad first)
      | inr nz ↦
          let padded = if not first then true else pad in
          rw nz (
            AllHex-append capital (kputch_hex byte capital padded) (hex_bytes i n capital pad false)
              (kputch_hex-AllHex byte capital padded (omega arith))
              (hex_bytes-AllHex i n capital pad false))
    ]

sixteen_digits : (capital : Bool) → Upto 16 (λ d. hex_digit (hex_char capital d) ≡ d)
unfolding hex_digit hex_char
sixteen_digits true = (
  refl,
  (
    refl,
    (
      refl,
      (
        refl,
        (
          refl,
          (
            refl,
            (refl, (refl, (refl, (refl, (refl, (refl, (refl, (refl, (refl, (refl, tt)))))))))),
          ),
        ),
      ),
    ),
  ),
)
sixteen_digits false = (
  refl,
  (
    refl,
    (
      refl,
      (
        refl,
        (
          refl,
          (
            refl,
            (refl, (refl, (refl, (refl, (refl, (refl, (refl, (refl, (refl, (refl, tt)))))))))),
          ),
        ),
      ),
    ),
  ),
)

hex_digit-hex_char : (capital : Bool) (d : ℕ) → d < 16 → hex_digit (hex_char capital d) ≡ d
hex_digit-hex_char capital d h =
    Upto-at (λ k. hex_digit (hex_char capital k) ≡ k) 16 d (sixteen_digits capital) h

hex_value-padded :
    (acc b : ℕ) (capital : Bool) (rest : List ℕ)
    → b < 256
    → hex_value acc (kputch_hex b capital true ++ rest) ≡ hex_value (acc * 256 + b) rest
unfolding kputch_hex
hex_value-padded acc b capital rest h =
    let high = hex_digit-hex_char capital (b / 16) (omega arith) in
    let low = hex_digit-hex_char capital (b % 16) (omega arith) in
    let both : (acc * 16 + b / 16) * 16 + b % 16 ≡ acc * 256 + b = omega arith in
    elim (Bool-cases (b / 16 == 0)) [
      | inl z ↦ rw (z, high, low, both)
      | inr nz ↦ rw (nz, high, low, both)
    ]

-- In front nothing has been read, so a missing zero makes no difference.
hex_value-first :
    (b : ℕ) (capital pad : Bool) (rest : List ℕ)
    → b < 256
    → hex_value 0 (kputch_hex b capital pad ++ rest) ≡ hex_value b rest
unfolding kputch_hex
hex_value-first b capital pad rest h = elim (Bool-cases (not (b / 16 == 0) || pad)) [
  | inl two ↦
      let high = hex_digit-hex_char capital (b / 16) (omega arith) in
      let low = hex_digit-hex_char capital (b % 16) (omega arith) in
      let both : (0 * 16 + b / 16) * 16 + b % 16 ≡ b = omega arith in rw (two, high, low, both)
  | inr one ↦
      let low = hex_digit-hex_char capital (b % 16) (omega arith) in
      let whole : 0 * 16 + b % 16 ≡ b = ground arith in rw (one, low, whole)
]

bytes_value : (i n acc : ℕ) → ℕ
bytes_value zero n acc = acc
bytes_value (suc i) n acc = bytes_value i n (acc * 256 + n / 2 ^ (8 * i) % 256)

four : (n : ℕ) → n < 2 ^ 32 → bytes_value 4 n 0 ≡ n
unfolding bytes_value
four n h = omega arith

later_bytes :
    (i n acc : ℕ) (capital pad : Bool)
    → hex_value acc (hex_bytes i n capital pad false) ≡ bytes_value i n acc
unfolding hex_bytes bytes_value
later_bytes zero n acc capital pad = refl
later_bytes (suc i) n acc capital pad =
    hex_value-padded acc (n / 2 ^ (8 * i) % 256) capital (hex_bytes i n capital pad false)
      (omega arith)
    ∙ later_bytes i n (acc * 256 + n / 2 ^ (8 * i) % 256) capital pad

first_bytes :
    (i n : ℕ) (capital pad : Bool)
    → hex_value 0 (hex_bytes i n capital pad true) ≡ bytes_value i n 0
unfolding hex_bytes bytes_value
first_bytes zero n capital pad = refl
first_bytes (suc i) n capital pad = elim (Bool-cases (n / 2 ^ (8 * i) % 256 == 0)) [
  | inl z ↦
      let e : n / 2 ^ (8 * i) % 256 ≡ 0 = ground arith in rw (z, e) (first_bytes i n capital pad)
  | inr nz ↦
      let start : 0 * 256 + n / 2 ^ (8 * i) % 256 ≡ n / 2 ^ (8 * i) % 256 = omega arith in
      rw (nz, start)
        (hex_value-first (n / 2 ^ (8 * i) % 256) capital pad (hex_bytes i n capital pad false)
            (omega arith)
          ∙ later_bytes i n (n / 2 ^ (8 * i) % 256) capital pad)
]

length-kputch_hex : (b : ℕ) (capital pad : Bool) → length (kputch_hex b capital pad) ≤ 2
unfolding kputch_hex
length-kputch_hex b capital pad = ground arith

length-hex_bytes :
    (i n : ℕ) (capital pad first : Bool) → length (hex_bytes i n capital pad first) ≤ 2 * i
unfolding hex_bytes
length-hex_bytes zero n capital pad first = omega arith
length-hex_bytes (suc i) n capital pad first = ground (
  arith,
  length-hex_bytes i n capital pad true,
  length-hex_bytes i n capital pad false,
  length-kputch_hex (n / 2 ^ (8 * i) % 256) capital (if not first then true else pad),
  length-append (kputch_hex (n / 2 ^ (8 * i) % 256) capital (if not first then true else pad))
      (hex_bytes i n capital pad false),
)

-- Of a 32-bit number `kprint_hex_uint` prints, padded or not, at most eight characters, all of them
-- hexadecimal digits of the case that is asked for, which read back as the number.
pub kprint_hex_uint-hex_value :
    (n : ℕ) (capital pad : Bool)
    → n < 2 ^ 32
    → (hex_value 0 (kprint_hex_uint n capital pad) ≡ n)
      × (length (kprint_hex_uint n capital pad) ≤ 8)
      × AllHex capital (kprint_hex_uint n capital pad)
unfolding kprint_hex_uint hex_digit
kprint_hex_uint-hex_value n capital pad h = elim (Bool-cases (n == 0)) [
  | inl z ↦ rw z (zero_value (ground arith), omega arith, (refl, tt))
  | inr nz ↦ rw nz (
    first_bytes 4 n capital pad ∙ four_bytes,
    length-hex_bytes 4 n capital pad true,
    hex_bytes-AllHex 4 n capital pad true,
  )
]
  where
    zero_value : n ≡ 0 → hex_value 0 (b'0' ∷ []) ≡ n
    zero_value e = rw e

    four_bytes : bytes_value 4 n 0 ≡ n
    four_bytes = four n h
