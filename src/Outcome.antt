-- ===== src/Outcome.antt =====
-- What a C++ expression comes to: a value, or an exception that is on its way up the stack.

-- `json::parse_error`, every other `json::exception`, and the two exceptions of `std::stoll`.
pub data Exception : Type 0 where
  parse_error type_error invalid_argument out_of_range : Exception

pub data Outcome (A : Type 0) : Type 0 where
  done : A → Outcome A
  thrown : Exception → Outcome A

-- `catch (...)` around an expression, with the value that the handler goes on with.
abbrev pub catch_all : {A : Type 0} → A → Outcome A → A
catch_all a (done b) = b
catch_all a (thrown e) = a

infixl 5 ◌>>=◌
abbrev pub ◌>>=◌ : {A B : Type 0} → Outcome A → (A → Outcome B) → Outcome B
done a >>= f = f a
thrown e >>= f = thrown e
