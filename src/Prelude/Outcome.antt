-- ===== src/Prelude/Outcome.antt =====
-- Python code that returns or raises. The exceptions of a component are a type of its own.
pub data Result {ℓ κ} (E : Type κ) (A : Type ℓ) : Type (ℓ ⊔ κ) where
  ok : A → Result E A
  raise : E → Result E A

-- An exception leaves a block of statements at once; a value goes on to the next statement.
infixl 5 ◌>>=◌
abbrev pub ◌>>=◌ {ℓ κ μ} :
    {Exception : Type κ} {Value : Type ℓ} {Next : Type μ}
    → Result Exception Value
    → (Value → Result Exception Next)
    → Result Exception Next
raise exception >>= next = raise exception
ok value >>= next = next value

infixl 5 ◌>>◌
abbrev pub ◌>>◌ {ℓ κ μ} :
    {Exception : Type κ} {Value : Type ℓ} {Next : Type μ}
    → Result Exception Value
    → Result Exception Next
    → Result Exception Next
raise exception >> next = raise exception
ok value >> next = next
