-- ===== src/SensorCmds/MainRun.antt =====
-- src/lab4/c/sensor_commands/tools/sensor_cmds/main.c: the program, from its options to its end.
use ie0417_dev_b.Base.{
  ℕ, ◌+◌, ◌≤◌, ◌<◌, ◌≡◌, refl, ap, ◌∙◌, none, some, List, [], ◌∷◌, ◌++◌, length, length-append,
  CString, All, ◌≢◌, ℤ, pos, arith, bytes,
}
use ie0417_dev_b.Process.{World, Ptr, Output, text}
use ie0417_dev_b.Utlist.{Utlist}
use ie0417_dev_b.Uthash.{Uthash}
use ie0417_dev_b.Cjson.{Cjson}
use ie0417_dev_b.Files.{Files}
use ie0417_dev_b.Options.{path_max, all_config, parse_options-last}
use ie0417_dev_b.SensorCommands.Types.{Command}
use ie0417_dev_b.SensorCommands.Command.Lifecycle.{msg_command}
use ie0417_dev_b.SensorCommands.Factory.{SensorConstructor}
use ie0417_dev_b.SensorCommands.CommandQueue.{CmdQNode, InitAnswers, send_malloc}
use ie0417_dev_b.SensorCommands.Manager.{SensorHashEntry}
use ie0417_dev_b.SensorCommands.Manager.Load.{Config, NoOom}
use ie0417_dev_b.SensorCommands.Manager.Create.{IsConfig}
use ie0417_dev_b.SensorCmds.{
  test_message, sensor_names, basic_command_experiment, sensor_command_experiment, main,
}
use ie0417_dev_b.SensorCmds.Talk.{
  Request, create_thread, queue_send, join_thread, Talk, T, done, asks, return, and_ask, Reply,
  finished, play,
}
use ie0417_dev_b.SensorCmds.Basic.{
  IsGranted, granted, before, stop_signal, all_requests, basic_end, basic-sends_all,
}
use ie0417_dev_b.SensorCmds.Experiment.{ReadsListed, experiment-reads_all}

-- A program that ends with as many replies as it has asked for goes on with those that follow.
play-and_ask :
    {A B : Type 0} (t : Talk A) (k : A → T B) (l l' : List Reply) (a : A) (w : World)
    → (play t l).1 ≡ finished (some (a, w))
    → length (play t l).0 ≡ length l
    → play (and_ask t k) (l ++ l') ≡ before (play t l).0 (play (k a w) l')
unfolding play
play-and_ask (done none) k l l' a w e n = absurd (ground arith)
play-and_ask (done (some (b, v))) k [] l' a w e n = ground arith
play-and_ask (done (some (b, v))) k (x ∷ l) l' a w e n = absurd (omega (arith, n))
play-and_ask (asks r v f) k [] l' a w e n = absurd (ground arith)
play-and_ask (asks r v f) k ((z, o) ∷ l) l' a w e n =
    ap (before (r ∷ []))
      (play-and_ask (f z (record v { out = v.out ++ o })) k l l' a w e (omega (arith, n)))

play-return :
    {A B : Type 0} (t : Talk A) (l : List Reply) (a : A) (b : B) (w : World)
    → (play t l).1 ≡ finished (some (a, w))
    → play (and_ask t (λ x. return b)) l ≡ ((play t l).0, finished (some (b, w)))
unfolding play
play-return (done none) l a b w e = absurd (ground arith)
play-return (done (some (c, v))) l a b w e = ground arith
play-return (asks r v f) [] a b w e = absurd (ground arith)
play-return (asks r v f) ((z, o) ∷ l) a b w e =
    ap (before (r ∷ [])) (play-return (f z (record v { out = v.out ++ o })) l a b w e)

length-granted : (outs : List (List Output)) → length (granted outs) ≡ length outs
length-granted [] = refl
length-granted (o ∷ outs) = omega (arith, length-granted outs)

module _ (L : Utlist (Ptr (CmdQNode (Ptr Command)))) (J : Cjson) (F : Uthash SensorConstructor)
    (H : Uthash SensorHashEntry) (signal : ℕ) where
  -- What is written before the answers to the requests of the first experiment.
  pub record Outputs : Type 0 where
    pub started : List Output
    pub sends : List (List Output)
    pub stopped : List Output
    pub joined : List Output
    pub ten : length sends ≡ 10

  -- The first experiment, and what follows it.
  basic-then :
      {A : Type 0} (ans : InitAnswers) (w : World) (o : Outputs) (k : ℤ → T A) (l : List Reply)
      → IsGranted ans
      → NoOom w
      → play (and_ask (basic_command_experiment L ans signal w) k) (
          (pos 0, o.started)
          ∷ ((granted o.sends ++ (pos 0, o.stopped) ∷ (pos 0, o.joined) ∷ []) ++ l))
        ≡ before
            (all_requests L (msg_command (record w { next = w.next + 1 }) test_message) signal)
            (play (k (pos 0) (basic_end L w o.started o.stopped o.joined o.sends)) l)
  basic-then ans w o k l g m =
      let cmd = msg_command (record w { next = w.next + 1 }) test_message in
      let ending = basic_end L w o.started o.stopped o.joined o.sends in
      let replies : List Reply =
        (pos 0, o.started) ∷ (granted o.sends ++ (pos 0, o.stopped) ∷ (pos 0, o.joined) ∷ []) in
      let run : play (basic_command_experiment L ans signal w) replies
          ≡ (all_requests L cmd signal, finished (some (pos 0, ending))) =
        basic-sends_all L ans signal w o.started o.stopped o.joined o.sends g m o.ten in
      let thirteen : length (all_requests L cmd signal) ≡ 13 = refl in
      let count : 13 ≡ length replies = omega (
        arith,
        length-append (granted o.sends) ((pos 0, o.stopped) ∷ (pos 0, o.joined) ∷ []),
        length-granted o.sends,
        o.ten,
      ) in
      play-and_ask (basic_command_experiment L ans signal w) k replies l (pos 0) ending
        (ap (λ p. p.1) run) (ap (λ p. length p.0) run ∙ thirteen ∙ count)
      ∙ ap (λ p. before p.0 (play (k (pos 0) ending) l)) run

  -- The whole program sensor_cmds: with memory for every allocation, every request granted, only
  -- the option -c, whose last file name has no zero byte and less than PATH_MAX bytes, a generated
  -- version function that answers 0, and a configuration file that reads as a JSON object with an
  -- array of known sensors, `main` comes to its end and returns 0, and what it asks for is, in
  -- order: the consumer thread, ten times the message command, the stop signal and the join of the
  -- first experiment; then the consumer thread, for each of its sensor names that the file lists
  -- one command that reads a listed sensor of that name, the stop signal and the join of the
  -- second.
  pub main-runs :
      (names : List CString) (f : CString) (uninit : List ℕ) (version : CString)
      (basic sensor : InitAnswers) (files : Files) (l : Config) (w : World) (o : Outputs)
      (outs : List (List Output))
      → length uninit ≡ path_max + 1
      → All (λ c. c ≢ 0) f
      → length f < path_max
      → IsGranted basic
      → IsGranted sensor
      → NoOom w
      → IsConfig J files f (w.junk (w.next + 1 + 1 + 1 + 1 + 1)) l
      → 8 ≤ length outs
      → (rs : List Request) × (w' : World) × (play
            (main L J F H
              (all_config (names ++ f ∷ []))
              (pos 0, version)
              uninit
              basic
              sensor
              signal
              files
              w)
            ((pos 0, o.started)
              ∷ ((granted o.sends ++ (pos 0, o.stopped) ∷ (pos 0, o.joined) ∷ []) ++ granted outs))
          ≡ (
            all_requests L (msg_command (record w { next = w.next + 1 }) test_message) signal
                ++ create_thread
                  ∷ (rs ++ queue_send (send_malloc (stop_signal signal)) ∷ join_thread ∷ []),
            finished (some (pos 0, w')),
          ))
        × ReadsListed l sensor_names rs
  unfolding main
  main-runs names f uninit version basic sensor files l w o [] h t short gb gs m c long =
      absurd (omega (arith, long))
  main-runs names f uninit version basic sensor files l w o (begun ∷ outs) h t short gb gs m c
        long =
      let (array, parsed, size, is) = parse_options-last names f uninit h t short in
      let w1 : World = record w {
        out = w.out ++ text (bytes "lib version: " ++ (version ++ bytes "\n")) ∷ [];
      } in
      let w2 = basic_end L w1 o.started o.stopped o.joined o.sends in
      let (rs, w', run, is_read) =
        experiment-reads_all L J F H signal sensor files array f l w2 begun outs gs m is c
          (omega (arith, long)) in
      (
        rs,
        w',
        rw parsed (
            basic-then basic w1 o
              (λ x w3.
                and_ask (sensor_command_experiment L J F H sensor signal files array w3)
                  (λ x. return (pos 0)))
              (granted (begun ∷ outs)) gb m
            ∙ ap
                (before (
                  all_requests L (msg_command (record w { next = w.next + 1 }) test_message)
                    signal))
                (play-return (sensor_command_experiment L J F H sensor signal files array w2)
                    (granted (begun ∷ outs)) (pos 0) (pos 0) w' (ap (λ p. p.1) run)
                  ∙ ap (λ p. (p.0, finished (some (pos 0, w')))) run)),
        is_read,
      )
