-- ===== src/Easy/Decimal.antt =====
-- atoi reads what the format "%d" prints.
use jekv.Sector.Write.Program.{AllBytes-append, AllBytes}
use jekv.Base.{
  ℕ, zero, suc, ◌*◌, ◌≡◌, ◌<◌, List, ◌++◌, true, Bool-cases, [], arith, inl, inr, length, ltb, ◌%◌,
  ◌+◌, ◌/◌, ◌∷◌, ◌≤◌, false, ap, ◌∙◌, length-append, pos, negsuc, ℤ, refl,
}
use jekv.Easy.{digits, read_digits, atoi, decimal, negate}

-- The numbers of at most `n` digits.
unfoldable pub tens : ℕ → ℕ
tens zero = 1
tens (suc n) = 10 * tens n

digits_small : (k n : ℕ) → ltb n 10 ≡ true → digits (suc k) n ≡ (48 + n % 10) ∷ []
unfolding digits
digits_small k n e = rw e refl

digits_large :
    (k n : ℕ) → ltb n 10 ≡ false → digits (suc k) n ≡ digits k (n / 10) ++ ((48 + n % 10) ∷ [])
unfolding digits
digits_large k n e = rw e refl

pub append_one : (xs rest : List ℕ) (x : ℕ) → (xs ++ (x ∷ [])) ++ rest ≡ xs ++ (x ∷ rest)
append_one [] rest x = refl
append_one (y ∷ xs) rest x = ap (λ l. y ∷ l) (append_one xs rest x)

-- One more digit.
read_one :
    (acc n : ℕ) (rest : List ℕ)
    → read_digits acc ((48 + n % 10) ∷ rest) ≡ read_digits (acc * 10 + n % 10) rest
unfolding read_digits
read_one acc n rest = ground arith

pub read_digits-digits :
    (k n : ℕ) (rest : List ℕ)
    → n < tens (suc k)
    → read_digits 0 (digits (suc k) n ++ rest) ≡ read_digits n rest
unfolding tens
read_digits-digits zero n rest h =
    let same : 0 * 10 + n % 10 ≡ n = omega (arith, h) in
    rw (digits_small zero n (ground (arith, h)), read_one 0 n rest)
      (ap (λ a. read_digits a rest) same)
read_digits-digits (suc k) n rest h = elim (Bool-cases (ltb n 10)) [
  | inl e ↦
      let small : n < 10 = ground (arith, e) in
      let same : 0 * 10 + n % 10 ≡ n = omega (arith, small) in
      rw (digits_small (suc k) n e, read_one 0 n rest) (ap (λ a. read_digits a rest) same)
  | inr e ↦
      let same : n / 10 * 10 + n % 10 ≡ n = omega arith in
      rw (digits_large (suc k) n e, append_one (digits (suc k) (n / 10)) rest (48 + n % 10))
        (read_digits-digits k (n / 10) ((48 + n % 10) ∷ rest) (omega (arith, h))
          ∙ (read_one (n / 10) n rest ∙ ap (λ a. read_digits a rest) same))
]

length-digits : (k n : ℕ) → length (digits k n) ≤ k
unfolding digits
length-digits zero n = omega arith
length-digits (suc k) n = elim (Bool-cases (ltb n 10)) [
  | inl e ↦ rw (digits_small k n e) (omega arith)
  | inr e ↦
      rw (digits_large k n e, length-append (digits k (n / 10)) ((48 + n % 10) ∷ []))
        (omega (arith, length-digits k (n / 10)))
]

digits-AllBytes : (k n : ℕ) → AllBytes (digits k n)
unfolding digits
digits-AllBytes zero n = tt
digits-AllBytes (suc k) n = elim (Bool-cases (ltb n 10)) [
  | inl e ↦ rw (digits_small k n e) (omega arith, tt)
  | inr e ↦ rw (digits_large k n e) (
      AllBytes-append (digits k (n / 10)) ((48 + n % 10) ∷ []) (digits-AllBytes k (n / 10))
        (omega arith, tt))
]

-- A text that begins with a digit.
abbrev Leads : List ℕ → Type 0
Leads [] = ⊥
Leads (c ∷ cs) = (48 ≤ c) × (c < 58)

digits-Leads : (k n : ℕ) (rest : List ℕ) → n < tens (suc k) → Leads (digits (suc k) n ++ rest)
unfolding tens
digits-Leads zero n rest h = rw (digits_small zero n (ground (arith, h))) (omega arith, omega arith)
digits-Leads (suc k) n rest h = elim (Bool-cases (ltb n 10)) [
  | inl e ↦ rw (digits_small (suc k) n e) (omega arith, omega arith)
  | inr e ↦
      rw (digits_large (suc k) n e, append_one (digits (suc k) (n / 10)) rest (48 + n % 10))
        (digits-Leads k (n / 10) ((48 + n % 10) ∷ rest) (omega (arith, h)))
]

atoi-Leads : (cs : List ℕ) → Leads cs → atoi cs ≡ pos (read_digits 0 cs)
unfolding atoi
atoi-Leads [] h = absurd h
atoi-Leads (c ∷ cs) h = ground (arith, h)

-- The ints, of 32 bits.
abbrev pub IsInt : ℤ → Type 0
IsInt (pos n) = n < 2147483648
IsInt (negsuc n) = n < 2147483648

-- What "%d" prints of an int, with its terminator, atoi reads back.
pub atoi-decimal : (v : ℤ) (rest : List ℕ) → IsInt v → atoi (decimal v ++ (0 ∷ rest)) ≡ v
unfolding atoi decimal read_digits tens
atoi-decimal (pos n) rest h =
    atoi-Leads (digits 10 n ++ (0 ∷ rest)) (digits-Leads 9 n (0 ∷ rest) (omega (arith, h)))
    ∙ ap (λ m. pos m) (read_digits-digits 9 n (0 ∷ rest) (omega (arith, h)))
atoi-decimal (negsuc n) rest h =
    ap (λ m. negate m) (read_digits-digits 9 (suc n) (0 ∷ rest) (omega (arith, h)))

pub length-decimal : (v : ℤ) → length (decimal v) ≤ 11
unfolding decimal
length-decimal (pos n) = omega (arith, length-digits 10 n)
length-decimal (negsuc n) = omega (arith, length-digits 10 (suc n))

pub decimal-AllBytes : (v : ℤ) → AllBytes (decimal v)
unfolding decimal
decimal-AllBytes (pos n) = digits-AllBytes 10 n
decimal-AllBytes (negsuc n) = (omega arith, digits-AllBytes 10 (suc n))
