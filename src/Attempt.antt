-- ===== src/Attempt.antt =====
-- The outcome of a call whose errors are messages of a program around the engine (the command line, the
-- bindings): `Result<A, E>`, or a panic. `stuck` is no outcome of the code.
use vexdb.Prelude.{Option, none, some, String}
use vexdb.Error
use vexdb.Error.{VexError, Outcome}
use vexdb.Persist.Format
use vexdb.Persist.Format.{Result, SnapshotError}

pub data Attempt (E A : Type 0) : Type 0 where
  ok : A → Attempt E A
  err : E → Attempt E A
  panic : Attempt E A
  stuck : Attempt E A

infixl 5 ◌>>=◌
abbrev pub ◌>>=◌ : {E A B : Type 0} → Attempt E A → (A → Attempt E B) → Attempt E B
ok a >>= f = f a
err e >>= f = err e
panic >>= f = panic
stuck >>= f = stuck

-- `result.map_err(message)?` on a call of the engine.
abbrev pub lift : {E A : Type 0} → (VexError → E) → Outcome A → Attempt E A
lift message (Error.ok a) = ok a
lift message (Error.err e) = err (message e)
lift message Error.panic = panic
lift message Error.stuck = stuck

-- `result.map_err(message)?` on the reading or the writing of a snapshot.
abbrev pub lift_snapshot : {E A : Type 0} → (SnapshotError → E) → Result A → Attempt E A
lift_snapshot message (Format.ok a) = ok a
lift_snapshot message (Format.err e) = err (message e)

-- `option.ok_or(message)?`
abbrev pub or_fail : {E A : Type 0} → E → Option A → Attempt E A
or_fail message none = err message
or_fail message (some a) = ok a

-- `text.map(parse).transpose().map_err(message)?`
abbrev pub parse_optional :
    {E A : Type 0} → (String → Option A) → E → Option String → Attempt E (Option A)
parse_optional parse message none = ok none
parse_optional parse message (some text) = or_fail message (parse text) >>= λ a. ok (some a)
