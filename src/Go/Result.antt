-- ===== src/Go/Result.antt =====
-- How a call may end: with a value, with an error, by a panic, or never.
use network_controller.Common.{Bool, true, false}
use network_controller.Go.Text.{Bytes}

-- The reasons of an API status that the program asks for (`IsNotFound`, `IsAlreadyExists`, and
-- `IsConflict` in `RetryOnConflict`).
pub data Reason : Type 0 where
  not_found already_exists conflict other_reason : Reason

-- An error of the API with its message, and one made by `fmt.Errorf` or package net.
pub data Error : Type 0 where
  status : Reason → Bytes → Error
  plain : Bytes → Error

-- `err.Error()`
abbrev pub error_text : Error → Bytes
error_text (status r m) = m
error_text (plain m) = m

abbrev pub is_not_found : Error → Bool
is_not_found (status Reason.not_found m) = true
is_not_found _ = false

abbrev pub is_already_exists : Error → Bool
is_already_exists (status Reason.already_exists m) = true
is_already_exists _ = false

pub data Result {ℓ} (V : Type ℓ) : Type ℓ where
  hangs panics : Result V
  ok : V → Result V
  err : Error → Result V

module _ {ℓ κ} {V : Type ℓ} {U : Type κ} where
  infixl 5 ◌>>=◌
  abbrev pub ◌>>=◌ : Result V → (V → Result U) → Result U
  hangs >>= next = hangs
  panics >>= next = panics
  err e >>= next = err e
  ok v >>= next = next v
