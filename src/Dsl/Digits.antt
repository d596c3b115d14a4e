-- ===== src/Dsl/Digits.antt =====
-- fmt.Sprintf("%d", n), as internal/router/dsl/compiler.go numbers steps: two numbers have two texts.
use Prim.Native.Char.{code}
use Prim.Native.String.{char_at}
use senechal_gw.Prelude.{
  ℕ, zero, suc, ◌+◌, ◌-◌, ◌*◌, ◌/◌, ◌%◌, ◌<◌, String, ◌≡◌, refl, sym, ap, ◌∙◌, inl, inr, arith, ltb,
  decimal, decimal_onto, Bool-cases,
}

read : ℕ → String → ℕ
read n String.[] = n
read n (String.◌∷◌ c s) = read (n * 10 + (code c - 48)) s

digit-code : (d : ℕ) → d < 10 → code (char_at "0123456789" d) - 48 ≡ d
digit-code zero l = refl
digit-code (suc zero) l = refl
digit-code (suc (suc zero)) l = refl
digit-code (suc (suc (suc zero))) l = refl
digit-code (suc (suc (suc (suc zero)))) l = refl
digit-code (suc (suc (suc (suc (suc zero))))) l = refl
digit-code (suc (suc (suc (suc (suc (suc zero)))))) l = refl
digit-code (suc (suc (suc (suc (suc (suc (suc zero))))))) l = refl
digit-code (suc (suc (suc (suc (suc (suc (suc (suc zero)))))))) l = refl
digit-code (suc (suc (suc (suc (suc (suc (suc (suc (suc zero))))))))) l = refl
digit-code (suc (suc (suc (suc (suc (suc (suc (suc (suc (suc d)))))))))) l =
    absurd (omega (arith, l))

read-decimal_onto : (fuel n : ℕ) (s : String) → n < fuel → read 0 (decimal_onto fuel n s) ≡ read n s
unfolding read decimal_onto
read-decimal_onto zero n s l = absurd (omega (arith, l))
read-decimal_onto (suc fuel) n s l = elim (Bool-cases (ltb n 10)) [
  | inl e ↦ let d = digit-code n (ground (arith, e)) in rw e (ap (λ k. read k s) (omega (arith, d)))
  | inr e ↦
      let d = digit-code (n % 10) (omega arith) in
      let rest =
        read-decimal_onto fuel (n / 10) (String.◌∷◌ (char_at "0123456789" (n % 10)) s)
          (ground (arith, e, l)) in
      rw e (rest ∙ ap (λ k. read k s) (omega (arith, d)))
]

read-decimal : (n : ℕ) → read 0 (decimal n) ≡ n
unfolding read decimal
read-decimal n = read-decimal_onto (suc n) n String.[] (omega arith)

pub decimal-injective : (m n : ℕ) → decimal m ≡ decimal n → m ≡ n
decimal-injective m n h = sym (read-decimal m) ∙ ap (read 0) h ∙ read-decimal n
