-- ===== src/Prelude/Int.antt =====
-- Python's `int`, where a value may be negative before it is checked. `negsuc n` is -(n + 1).
use Prim.Native.Nat.{ℕ, zero, suc, ◌/◌, ◌%◌}
use Prim.Native.String.{String}
use mathlib.Core.Bool.{Bool, true, false}
use mathlib.Core.List.{List, [], ◌∷◌}
use mathlib.Core.Path.{ap}
use mathlib.Core.Logic.{dite}
use native.Mathlib.Decide.{ℕ_discrete}
use ragsistemi.Prelude.Tests.{ltb, if◌then◌else◌, Eq}
use ragsistemi.Prelude.Text.{concat}

pub data ℤ : Type 0 where
  pos : ℕ → ℤ
  negsuc : ℕ → ℤ

int_dec : Discrete ℤ
int_dec (pos m) (pos n) = dite (ℕ_discrete m n) (λ e. yes (ap pos e)) (λ n'. no (λ p. n' (cc)))
int_dec (negsuc m) (negsuc n) =
    dite (ℕ_discrete m n) (λ e. yes (ap negsuc e)) (λ n'. no (λ p. n' (cc)))
int_dec (pos m) (negsuc n) = no (λ p. cc)
int_dec (negsuc m) (pos n) = no (λ p. cc)

instance unfoldable pub int_eq : Eq ℤ
unfolding int_dec
int_eq = record { dec = int_dec }

-- `i < k` at a natural number `k`
abbrev pub is_below : ℤ → ℕ → Bool
is_below (pos n) k = ltb n k
is_below (negsuc n) k = true

-- `i < j`
unfoldable pub lt_int : ℤ → ℤ → Bool
lt_int (pos m) (pos n) = ltb m n
lt_int (pos m) (negsuc n) = false
lt_int (negsuc m) (pos n) = true
lt_int (negsuc m) (negsuc n) = ltb n m

digit : ℕ → String
digit zero = "0"
digit (suc zero) = "1"
digit (suc (suc zero)) = "2"
digit (suc (suc (suc zero))) = "3"
digit (suc (suc (suc (suc zero)))) = "4"
digit (suc (suc (suc (suc (suc zero))))) = "5"
digit (suc (suc (suc (suc (suc (suc zero)))))) = "6"
digit (suc (suc (suc (suc (suc (suc (suc zero))))))) = "7"
digit (suc (suc (suc (suc (suc (suc (suc (suc zero)))))))) = "8"
digit _ = "9"

-- The digits of `n`, least significant last. The fuel `n` is enough, since `n / 10` is below it.
decimal_fuel : ℕ → ℕ → List String → List String
unfolding digit
decimal_fuel zero n acc = digit (n % 10) ∷ acc
decimal_fuel (suc f) n acc =
    let rest = decimal_fuel f (n / 10) (digit (n % 10) ∷ acc) in
    if ltb n 10 then digit n ∷ acc else rest

-- `str(i)`
unfoldable pub decimal : ℤ → String
unfolding decimal_fuel concat
decimal (pos n) = concat (decimal_fuel n n [])
decimal (negsuc n) = concat ("-" ∷ decimal_fuel (suc n) (suc n) [])
