-- ===== src/Query/Exec.antt =====
-- Fallible steps on a mutable state: `&mut self` methods that return `QueryResult`. What was
-- written before an error stays written.
use vcd_tools_rs.Prelude.{ok, err}
use vcd_tools_rs.Errors.{QueryError, QueryResult}

abbrev pub Exec : Type 0 → Type 0 → Type 0
Exec S A = S → QueryResult A × S

module _ {S A B : Type 0} where
  abbrev pub continue : QueryResult A → (A → Exec S B) → Exec S B
  continue (err failure) next state = (err failure, state)
  continue (ok answer) next state = next answer state

  infixl 10 ◌>>=◌ ◌>>◌
  abbrev pub ◌>>=◌ : Exec S A → (A → Exec S B) → Exec S B
  ◌>>=◌ step next state = continue (step state).0 next (step state).1

  abbrev pub ◌>>◌ : Exec S A → Exec S B → Exec S B
  ◌>>◌ step next = step >>= λ _. next

module _ {S A : Type 0} where
  abbrev pub pure : A → Exec S A
  pure answer state = (ok answer, state)

  abbrev pub raise : QueryError → Exec S A
  raise failure state = (err failure, state)
