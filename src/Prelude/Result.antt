-- ===== src/Prelude/Result.antt =====
-- The exceptions that the modelled code raises, and the result of a call that may raise.

pub data Error : Type 0 where
  attribute_error index_error value_error type_error runtime_error : Error
  illegal_state bad_steps zero_division rpc_error version_rule : Error

pub data Result {ℓ} (A : Type ℓ) : Type ℓ where
  ok : A → Result A
  err : Error → Result A

infixl 5 ◌>>◌ ◌>>=◌
-- A call, and what is done with its value; an exception goes on up.
abbrev pub ◌>>=◌ {ℓ κ} : {A : Type ℓ} {B : Type κ} → Result A → (A → Result B) → Result B
r >>= next = elim r [ err raised ↦ err raised | ok value ↦ next value ]

abbrev pub ◌>>◌ {ℓ} : {A : Type ℓ} → Result (Unit {0}) → Result A → Result A
first >> second = first >>= λ done. second
