-- ===== src/Connect/Exec.antt =====
-- Methods that mutate the connect state and may fail: what was written before an error stays written.
use neotune.Common.{Option, none, some, Result}
use neotune.Connect.State.{ConnectState, StateError, StateContext, ContextType, no_context}
use neotune.Connect.Player.{get_context?}

-- `out_of_fuel` is the result of a loop that was given too little fuel, and `panicked` that of a panic.
pub data Run (A : Type 0) : Type 0 where
  ok : A → Run A
  err : StateError → Run A
  out_of_fuel panicked : Run A

abbrev pub Exec : Type 0 → Type 0
Exec A = ConnectState → Run A × ConnectState

infixl 10 ◌>>=◌ ◌>>◌
abbrev pub after : {A B : Type 0} → Run A → (A → Exec B) → Exec B
after (ok a) f s = f a s
after (err e) f s = (err e, s)
after out_of_fuel f s = (out_of_fuel, s)
after panicked f s = (panicked, s)

abbrev pub ◌>>=◌ : {A B : Type 0} → Exec A → (A → Exec B) → Exec B
◌>>=◌ m f s = after (m s).0 f (m s).1

abbrev pub ◌>>◌ : {A B : Type 0} → Exec A → Exec B → Exec B
m >> n = m >>= λ _. n

abbrev pub pure : {A : Type 0} → A → Exec A
pure a s = (ok a, s)

abbrev pub fail : {A : Type 0} → StateError → Exec A
fail e s = (err e, s)

abbrev pub gets : {A : Type 0} → (ConnectState → A) → Exec A
gets f s = (ok (f s), s)

abbrev pub modify : (ConnectState → ConnectState) → Exec (Unit {0})
modify f s = (ok tt, f s)

-- `ok_or(e)?`
abbrev pub or_fail : {A : Type 0} → Option A → StateError → Exec A
or_fail none e s = (err e, s)
or_fail (some a) e s = (ok a, s)

-- `get_context` and `get_context_mut`, with `?`
unfoldable pub get_context : ContextType → Exec StateContext
unfolding get_context?
get_context ty s = or_fail (get_context? ty s) (no_context ty) s

-- A plain `Result` and `?`, for what reads the state only.
abbrev pub lift : {A : Type 0} → Result StateError A → Exec A
lift (Result.ok a) s = (ok a, s)
lift (Result.err e) s = (err e, s)
