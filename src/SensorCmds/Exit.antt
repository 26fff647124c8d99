-- ===== src/SensorCmds/Exit.antt =====
-- src/lab4/c/sensor_commands/tools/sensor_cmds/main.c: the exit code of the program.
use ie0417_dev_b.Base.{
  ℕ, ◌≡◌, Option, none, some, List, [], ◌∷◌, ◌++◌, ℤ, CString, bytes, is_nonzero, Bool-cases,
  Option-cases, inl, inr, arith,
}
use ie0417_dev_b.Process.{World, Ptr, text}
use ie0417_dev_b.Utlist.{Utlist}
use ie0417_dev_b.Uthash.{Uthash}
use ie0417_dev_b.Cjson.{Cjson}
use ie0417_dev_b.Files.{Files}
use ie0417_dev_b.Options.{GetoptAnswer, minus_einval, parse_options}
use ie0417_dev_b.SensorCommands.Types.{Command}
use ie0417_dev_b.SensorCommands.Factory.{SensorConstructor}
use ie0417_dev_b.SensorCommands.CommandQueue.{CmdQNode, InitAnswers}
use ie0417_dev_b.SensorCommands.Manager.{SensorHashEntry}
use ie0417_dev_b.SensorCmds.{basic_command_experiment, sensor_command_experiment, main}
use ie0417_dev_b.SensorCmds.Talk.{Talk, T, done, asks, return, and_ask, Reply, finished, play}

-- The program gives no other result, whatever it is answered.
abbrev Returns : {A : Type 0} → A → Talk A → Type 0
Returns {A} z t =
    (l : List Reply) (y : A) (w : World) → (play t l).1 ≡ finished (some (y, w)) → y ≡ z

return-Returns : {A : Type 0} (z : A) (w : World) → Returns z (return z w)
unfolding play
return-Returns z w l y w' e = ground arith

and_ask-Returns :
    {A B : Type 0} (z : B) (t : Talk A) (k : A → T B)
    → ((a : A) (w : World) → Returns z (k a w))
    → Returns z (and_ask t k)
unfolding play
and_ask-Returns z (done none) k h l y w' e = absurd (ground arith)
and_ask-Returns z (done (some (a, w))) k h l y w' e = h a w l y w' e
and_ask-Returns z (asks r w f) k h [] y w' e = absurd (ground arith)
and_ask-Returns z (asks r w f) k h ((x, o) ∷ l) y w' e =
    and_ask-Returns z (f x (record w { out = w.out ++ o })) k h l y w' e

-- The exit code that the options and the answer of `sensor_commands_version` decide.
abbrev pub exit_code : Option (List ℕ) → (version_ret : ℤ) → ℤ
exit_code none version_ret = minus_einval
exit_code (some array) version_ret = version_ret

module _ (L : Utlist (Ptr (CmdQNode (Ptr Command)))) (J : Cjson) (F : Uthash SensorConstructor)
    (H : Uthash SensorHashEntry) (options : List GetoptAnswer) (version_ret : ℤ) (version : CString)
    (uninit : List ℕ) (basic sensor : InitAnswers) (signal : ℕ) (files : Files) where
  main-Returns :
      (w : World)
      → Returns
          (exit_code (parse_options options uninit) version_ret)
          (main L J F H options (version_ret, version) uninit basic sensor signal files w)
  unfolding main
  main-Returns w = elim (Option-cases (parse_options options uninit)) [
    | inl e ↦ rw e (return-Returns minus_einval w)
    | inr (array, e) ↦ elim (Bool-cases (is_nonzero version_ret)) [
      | inl b ↦ rw (e, b) (return-Returns version_ret w)
      | inr b ↦
          rw (e, b)
            (and_ask-Returns version_ret
              (basic_command_experiment L basic signal (record w {
                out = w.out ++ text (bytes "lib version: " ++ (version ++ bytes "\n")) ∷ [];
              }))
              (λ x w1.
                and_ask (sensor_command_experiment L J F H sensor signal files array w1)
                  (λ x. return version_ret))
              λ x w1.
                and_ask-Returns version_ret
                  (sensor_command_experiment L J F H sensor signal files array w1)
                  (λ x. return version_ret) λ x. return-Returns version_ret)
    ]
  ]

  -- If the program sensor_cmds returns, its exit code is -EINVAL where an option is unknown and
  -- otherwise what `sensor_commands_version` returned, whatever the experiments do.
  main-exit_code :
      (w w' : World) (l : List Reply) (y : ℤ)
      → (play (main L J F H options (version_ret, version) uninit basic sensor signal files w) l).1
        ≡ finished (some (y, w'))
      → y ≡ exit_code (parse_options options uninit) version_ret
  main-exit_code w w' l y e = main-Returns w l y w' e
