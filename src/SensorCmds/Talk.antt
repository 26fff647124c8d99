-- ===== src/SensorCmds/Talk.antt =====
-- What a program asks of the threads that it shares a command runner with.
use ie0417_dev_b.Base.{Option, none, some, List, [], ◌∷◌, ◌++◌, ℤ, ◌≡◌, refl, ap, fun_ext}
use ie0417_dev_b.Process.{World, Run, M, Ptr, Output}
use ie0417_dev_b.SensorCommands.Types.{Command}
use ie0417_dev_b.SensorCommands.CommandQueue.{Call}

-- The steps of a program in which other threads take part. A send is a call on the queue, which may
-- wait for the consumer thread.
pub data Request : Type 0 where
  create_thread : Request
  queue_send : Call (Ptr Command) → Request
  join_thread : Request

-- A program that runs up to its next request, and goes on with the answer.
pub data Talk (A : Type 0) : Type 0 where
  done : Run A → Talk A
  asks : Request → World → (ℤ → World → Talk A) → Talk A

abbrev pub T : Type 0 → Type 0
T A = World → Talk A

abbrev pub return : {A : Type 0} → A → T A
return a w = done (some (a, w))

abbrev pub lift : {A : Type 0} → M A → T A
lift m w = done (m w)

abbrev pub ask : Request → T ℤ
ask r w = asks r w (λ z w'. done (some (z, w')))

module _ {A B : Type 0} where
  abbrev pub and_ask : Talk A → (A → T B) → Talk B
  and_ask (done none) k = done none
  and_ask (done (some (a, w))) k = k a w
  and_ask (asks r w f) k = asks r w (λ z w'. and_ask (f z w') k)

  infixl 5 ◌>>=◌ ◌>>◌
  abbrev pub ◌>>=◌ : T A → (A → T B) → T B
  ◌>>=◌ m k w = and_ask (m w) k

  abbrev pub ◌>>◌ : T A → T B → T B
  ◌>>◌ m k w = and_ask (m w) (λ _. k)

  -- `if (p == NULL) …` with what follows in the other case.
  abbrev pub if_null : Option A → T B → (A → T B) → T B
  if_null none on_null k = on_null
  if_null (some a) on_null k = k a

pub and_ask_assoc :
    {A B C : Type 0} (t : Talk A) (f : A → T B) (g : B → T C)
    → and_ask (and_ask t f) g ≡ and_ask t (λ a w. and_ask (f a w) g)
and_ask_assoc (done none) f g = refl
and_ask_assoc (done (some (a, w))) f g = refl
and_ask_assoc (asks r w h) f g =
    ap (asks r w) (fun_ext λ z. fun_ext λ w'. and_ask_assoc (h z w') f g)

pub and_ask-return : {A : Type 0} (t : Talk A) → and_ask t return ≡ t
and_ask-return (done none) = refl
and_ask-return (done (some (a, w))) = refl
and_ask-return (asks r w h) = ap (asks r w) (fun_ext λ z. fun_ext λ w'. and_ask-return (h z w'))

-- A program ends, with a fault or a result, or waits for an answer.
pub data Ending (A : Type 0) : Type 0 where
  finished : Run A → Ending A
  waits : Ending A

-- What the other threads answer to a request, and what they have written to standard output by then.
abbrev pub Reply : Type 0
Reply = ℤ × List Output

-- The requests of a program that is given some replies, and how it ends.
unfoldable pub play : {A : Type 0} → Talk A → List Reply → List Request × Ending A
play (done r) l = ([], finished r)
play (asks r w k) [] = (r ∷ [], waits)
play (asks r w k) ((z, o) ∷ l) =
    let (rs, e) = play (k z (record w { out = w.out ++ o })) l in (r ∷ rs, e)
