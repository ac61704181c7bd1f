-- ===== src/Text/Numbers.antt =====
-- Numbers in decimal, as `%d` writes one that is not negative.
use Prim.Native.Char.{code}
use Prim.Native.Nat.{◌/◌, ◌%◌}
use Prim.Native.String.append
use Prim.Native.String.{String, ◌++◌}
use ang.Common.{
  ℕ, zero, suc, ◌+◌, ◌-◌, ◌*◌, ◌≤◌, ◌<◌, ltb, ◌≡◌, refl, sym, ap, ◌∙◌, inl, inr, arith, Bool-cases,
  if◌then◌else◌,
}

-- one digit
abbrev digit : ℕ → String
digit zero = "0"
digit (suc zero) = "1"
digit (suc (suc zero)) = "2"
digit (suc (suc (suc zero))) = "3"
digit (suc (suc (suc (suc zero)))) = "4"
digit (suc (suc (suc (suc (suc zero))))) = "5"
digit (suc (suc (suc (suc (suc (suc zero)))))) = "6"
digit (suc (suc (suc (suc (suc (suc (suc zero))))))) = "7"
digit (suc (suc (suc (suc (suc (suc (suc (suc zero)))))))) = "8"
digit (suc (suc (suc (suc (suc (suc (suc (suc (suc n))))))))) = "9"

-- the digits of a number that is at most the fuel
digits : ℕ → ℕ → String
digits zero n = digit n
digits (suc fuel) n =
    let rest = digits fuel (n / 10) in if ltb n 10 then digit n else rest ++ digit (n % 10)

-- `fmt.Sprint` of a number
unfoldable pub decimal : ℕ → String
unfolding digits
decimal n = digits n n

writes : decimal 1205 ≡ "1205"
unfolding decimal digits
writes = refl

-- the number that is written, read from the left behind one that was read before
read_from : ℕ → String → ℕ
read_from n String.[] = n
read_from n (String.◌∷◌ c s) = read_from (n * 10 + (code c - 48)) s

read_from-append : (n : ℕ) (s t : String) → read_from n (s ++ t) ≡ read_from (read_from n s) t
unfolding read_from
read_from-append n String.[] t = ap (read_from n) (append.nil t)
read_from-append n (String.◌∷◌ c s) t =
    ap (read_from n) (append.cons c s t) ∙ read_from-append (n * 10 + (code c - 48)) s t

read_from-digit : (n d : ℕ) → d < 10 → read_from n (digit d) ≡ n * 10 + d
unfolding read_from
read_from-digit n zero h = refl
read_from-digit n (suc zero) h = refl
read_from-digit n (suc (suc zero)) h = refl
read_from-digit n (suc (suc (suc zero))) h = refl
read_from-digit n (suc (suc (suc (suc zero)))) h = refl
read_from-digit n (suc (suc (suc (suc (suc zero))))) h = refl
read_from-digit n (suc (suc (suc (suc (suc (suc zero)))))) h = refl
read_from-digit n (suc (suc (suc (suc (suc (suc (suc zero))))))) h = refl
read_from-digit n (suc (suc (suc (suc (suc (suc (suc (suc zero)))))))) h = refl
read_from-digit n (suc (suc (suc (suc (suc (suc (suc (suc (suc d))))))))) h = omega arith

read_from-digits : (fuel n : ℕ) → n ≤ fuel → read_from 0 (digits fuel n) ≡ n
unfolding digits
read_from-digits zero n h = read_from-digit 0 n (omega arith) ∙ omega arith
read_from-digits (suc fuel) n h = elim (Bool-cases (ltb n 10)) [
  | inl small ↦ rw small (read_from-digit 0 n (ground arith) ∙ omega arith)
  | inr large ↦
      let whole : n / 10 ≤ fuel = ground arith in
      rw large (
        read_from-append 0 (digits fuel (n / 10)) (digit (n % 10))
        ∙ ap (λ m. read_from m (digit (n % 10))) (read_from-digits fuel (n / 10) whole)
        ∙ read_from-digit (n / 10) (n % 10) (omega arith)
        ∙ omega arith)
]

-- Two numbers that are written alike are the same.
pub decimal-injective : (m n : ℕ) → decimal m ≡ decimal n → m ≡ n
unfolding decimal
decimal-injective m n e =
    sym (read_from-digits m m (omega arith))
    ∙ ap (read_from 0) e
    ∙ read_from-digits n n (omega arith)
