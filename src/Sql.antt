-- ===== src/Sql.antt =====
-- What the program uses of the PostgreSQL driver (pgx, not part of the repository): the arguments of a
-- query, and the rows that come back.
use eks_financial_orchestrat.Common.{ℕ, String, Option, none, some, List, [], ◌∷◌}
use eks_financial_orchestrat.Common.Result.{Result, ok, err, ◌>>=◌}
use eks_financial_orchestrat.Types.{Time}

pub data SqlArg : Type 0 where
  time_arg : Time → SqlArg
  text_arg : String → SqlArg
  int_arg : ℕ → SqlArg

pub record Query : Type 0 where
  pub text : String
  pub args : List SqlArg

-- Each row, or why it could not be scanned; and `rows.Err()` at the end.
pub record Rows (A : Type 0) : Type 0 where
  pub scanned : List (Result String A)
  pub error : Option String

pub data QueryError : Type 0 where
  query_failed scan_failed iteration_failed : String → QueryError

module _ {A B : Type 0} (read : A → B) where
  -- The loop over the rows, up to the first that cannot be scanned.
  abbrev pub read_rows : List (Result String A) → Option String → Result QueryError (List B)
  read_rows [] none = ok []
  read_rows [] (some e) = err (iteration_failed e)
  read_rows (err e ∷ rest) last = err (scan_failed e)
  read_rows (ok a ∷ rest) last = read_rows rest last >>= λ bs. ok (read a ∷ bs)

  abbrev pub read_answer : Result String (Rows A) → Result QueryError (List B)
  read_answer (err e) = err (query_failed e)
  read_answer (ok rows) = read_rows rows.scanned rows.error
