-- ===== src/SensorCommands/CommandRunner/Executor.antt =====
-- What the command runner promises its clients, with no thread, semaphore, mutex or list in it: a
-- queue of bounded length whose commands are executed one at a time, up to a stop signal.
use ie0417_dev_b.Base.{ℕ, ◌<◌, ◌≡◌, Bool, true, false, List, [], ◌∷◌, ◌++◌, length}

pub record Executor (C : Type 0) : Type 0 where
  pub waiting : List C
  pub held : List C
  pub executed : List C
  pub ended : Bool

module _ {C : Type 0} (is_stop : C → Bool) (limit : ℕ) where
  pub data Act (e : Executor C) : Executor C → Type 0 where
    submit : (c : C) → length e.waiting < limit → Act e (record e { waiting = e.waiting ++ c ∷ [] })
    take :
        (c : C) (rest : List C)
        → e.waiting ≡ c ∷ rest
        → e.held ≡ []
        → e.ended ≡ false
        → Act e (record e { waiting = rest; held = c ∷ [] })
    execute :
        (c : C)
        → e.held ≡ c ∷ []
        → is_stop c ≡ false
        → Act e (record e { held = []; executed = e.executed ++ c ∷ [] })
    halt :
        (c : C) → e.held ≡ c ∷ [] → is_stop c ≡ true → Act e (record e { held = []; ended = true })

  pub data Acts (e : Executor C) : Executor C → Type 0 where
    none_yet : Acts e e
    and_then : {f g : Executor C} → Acts e f → Act f g → Acts e g

abbrev pub new_executor : {C : Type 0} → Executor C
new_executor = record { waiting = []; held = []; executed = []; ended = false }
