-- ===== src/Socket/Address.antt =====
-- `inet_addr` on the dotted notation of an address.
use netmalloc.Common.{
  ℕ, ◌+◌, ◌*◌, ◌/◌, ◌%◌, ◌<◌, ◌≡◌, refl, false, some, List, [], ◌∷◌, ◌++◌, arith, ltb, Bool-cases,
  inl, inr, if◌then◌else◌,
}
use netmalloc.Socket.{
  dot, is_digit, skip_spaces, scan_digits, scan_number, scan_signed, scan_int, scan_dot, scan_chars,
  little_endian, inet_addr,
}

abbrev pub digit : ℕ → ℕ
digit n = 48 + n

-- A number below 1000 in decimal, without zeros in front.
unfoldable pub decimal : ℕ → List ℕ
decimal n =
    if ltb n 10
    then digit n ∷ []
    else if ltb n 100
    then digit (n / 10) ∷ digit (n % 10) ∷ []
    else digit (n / 100) ∷ digit (n / 10 % 10) ∷ digit (n % 10) ∷ []

-- A byte of the notation behind its dot.
abbrev pub dotted_byte : ℕ → List ℕ → List ℕ
dotted_byte b s = dot ∷ (decimal b ++ s)

-- The dotted notation of four bytes in front of `s`.
abbrev pub dotted : ℕ → ℕ → ℕ → ℕ → List ℕ → List ℕ
dotted a b c d s = decimal a ++ dotted_byte b (dotted_byte c (dotted_byte d s))

-- The characters behind a number: none, or one that is no digit first.
abbrev pub NoDigit : List ℕ → Type 0
NoDigit [] = Unit {0}
NoDigit (c ∷ s) = is_digit c ≡ false

scan_digits-end : (n : ℕ) (s : List ℕ) → NoDigit s → scan_digits n s ≡ (n, s)
unfolding scan_digits
scan_digits-end n [] h = refl
scan_digits-end n (c ∷ s) h = rw h refl

scan_digits-digit :
    (n d : ℕ) (s : List ℕ) → d < 10 → scan_digits n (digit d ∷ s) ≡ scan_digits (10 * n + d) s
unfolding scan_digits
scan_digits-digit n d s h = ground arith

scan_int-digit :
    (d : ℕ) (s : List ℕ)
    → d < 10
    → scan_int (digit d ∷ s) ≡ some ((scan_digits d s).0 % 256, (scan_digits d s).1)
unfolding scan_int scan_signed scan_number skip_spaces
scan_int-digit d s h = ground (arith, scan_digits-digit 0 d s h)

-- The value and the rest of the digits of a number below 1000.
scan_int-decimal :
    (n : ℕ) (s : List ℕ) → n < 256 → NoDigit s → scan_int (decimal n ++ s) ≡ some (n, s)
unfolding decimal
scan_int-decimal n s h k = elim (Bool-cases (ltb n 10)) [
  | inl e ↦ rw (e, scan_int-digit n s (ground arith), scan_digits-end n s k) (ground arith)
  | inr e ↦ elim (Bool-cases (ltb n 100)) [
    | inl f ↦
        rw
          (
            e,
            f,
            scan_int-digit (n / 10) (digit (n % 10) ∷ s) (ground arith),
            scan_digits-digit (n / 10) (n % 10) s (omega arith),
            scan_digits-end (10 * (n / 10) + n % 10) s k,
          )
          (ground arith)
    | inr f ↦
        rw
          (
            e,
            f,
            scan_int-digit (n / 100) (digit (n / 10 % 10) ∷ digit (n % 10) ∷ s) (omega arith),
            scan_digits-digit (n / 100) (n / 10 % 10) (digit (n % 10) ∷ s) (omega arith),
            scan_digits-digit (10 * (n / 100) + n / 10 % 10) (n % 10) s (omega arith),
            scan_digits-end (10 * (10 * (n / 100) + n / 10 % 10) + n % 10) s k,
          )
          (ground arith)
  ]
]

-- One `.%d` of the format.
scan_chars-decimal :
    (n old : ℕ) (s chars : List ℕ)
    → n < 256
    → NoDigit s
    → scan_chars (dotted_byte n s) (old ∷ chars) ≡ n ∷ scan_chars s chars
unfolding scan_chars scan_dot
scan_chars-decimal n old s chars h k = rw (scan_chars, scan_dot, scan_int-decimal n s h k) refl

-- `inet_addr` reads the dotted notation of four bytes back, whatever its locals held: the first
-- byte is at the lowest address of the result.
pub inet_addr-dotted :
    (a b c d : ℕ) (w x y z : ℕ)
    → a < 256
    → b < 256
    → c < 256
    → d < 256
    → inet_addr (dotted a b c d []) w x y z ≡ a + 256 * (b + 256 * (c + 256 * d))
unfolding inet_addr
inet_addr-dotted a b c d w x y z ha hb hc hd =
    rw
      (
        scan_chars-decimal a w (dotted_byte b (dotted_byte c (dotted_byte d []))) (x ∷ y ∷ z ∷ [])
            ha refl,
        scan_chars-decimal b x (dotted_byte c (dotted_byte d [])) (y ∷ z ∷ []) hb refl,
        scan_chars-decimal c y (dotted_byte d []) (z ∷ []) hc refl,
        scan_chars-decimal d z [] [] hd tt,
      )
      (ground (arith, little_endian))
