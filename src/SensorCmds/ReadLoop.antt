-- ===== src/SensorCmds/ReadLoop.antt =====
-- src/lab4/c/sensor_commands/tools/sensor_cmds/main.c: the first loop of the second experiment where
-- memory and every request are granted, and what it leaves to the rest of the experiment.
use ie0417_dev_b.Base.{
  ℕ, suc, ◌+◌, ◌≤◌, ◌≡◌, refl, sym, ap, ◌∙◌, ◌==◌, false, Option, none, some, List, [], ◌∷◌, ◌++◌,
  length, CString, arith, All, subst, append-nil, bytes,
}
use ie0417_dev_b.Process.{World, Run, Ptr, Output, text}
use ie0417_dev_b.Process.Growth.{Grows, Grows-refl, Grows-trans, Grows-out}
use ie0417_dev_b.Process.Frees.{Freeable, Above, Below, below-Above}
use ie0417_dev_b.Utlist.{Utlist}
use ie0417_dev_b.Uthash.{Uthash}
use ie0417_dev_b.Cjson.{Cjson}
use ie0417_dev_b.SensorCommands.Types.{Command}
use ie0417_dev_b.SensorCommands.Factory.{SensorConstructor}
use ie0417_dev_b.SensorCommands.CommandQueue.{CmdQNode, send_malloc}
use ie0417_dev_b.SensorCommands.Manager.{SensorHashEntry, Manager, sensor_manager_read_cmd_create}
use ie0417_dev_b.SensorCmds.{Runner, after_create, send_read_commands}
use ie0417_dev_b.SensorCmds.Talk.{
  Request, queue_send, Talk, T, done, return, and_ask, play, and_ask_assoc, and_ask-return,
}
use ie0417_dev_b.SensorCmds.Basic.{granted, before}
use ie0417_dev_b.SensorCmds.Reads.{ends, skips, sends, with_entry}
use ie0417_dev_b.SensorCmds.AllReads.{
  IsReady, IsReady-grow, Makes, missing, makes, create-Makes, SendsAll,
}

abbrev pub Commands : Type 0
Commands = List (Option (Ptr Command))

abbrev pub cmd_blocks : Commands → List ℕ
cmd_blocks [] = []
cmd_blocks (none ∷ l) = cmd_blocks l
cmd_blocks (some c ∷ l) = c.addr ∷ cmd_blocks l

abbrev pub Between : ℕ → ℕ → List ℕ → Type 0
Between n m l = Above n l × Below m l

Between-weaken : (n n' m : ℕ) (l : List ℕ) → n' ≤ n → Between n m l → Between n' m l
Between-weaken n n' m [] h b = (tt, tt)
Between-weaken n n' m (a ∷ l) h ((x, xs), (y, ys)) =
    let (zs, us) = Between-weaken n n' m l h (xs, ys) in ((omega (arith, h, x), zs), (y, us))

module _ (J : Cjson) (F : Uthash SensorConstructor) (H : Uthash SensorHashEntry)
    (smgr : Ptr (Manager J F H)) (B : Type 0) where
  -- The loop, from the world `w` and with granted replies: its requests, the commands in the array,
  -- whose blocks are new, and the world and the replies for what follows.
  pub record Loop (names : List CString) (w : World) (outs : List (List Output))
      (t : Talk (Option Commands)) : Type 0 where
    pub cmds : Commands
    pub last : World
    pub requests : List Request
    pub left : List (List Output)
    pub run :
        (k : Option Commands → T B)
        → play (and_ask t k) (granted outs)
          ≡ before requests (play (k (some cmds) last) (granted left))
    pub all : SendsAll J F H smgr names requests
    pub grows : Grows w last
    pub blocks : Freeable (cmd_blocks cmds) last
    pub new : Between w.next last.next (cmd_blocks cmds)
    pub replies : length outs ≤ length left + length names

  module _ (L : Utlist (Ptr (CmdQNode (Ptr Command)))) (r : Runner L) where
    round-Loop :
        (name : CString) (names : List CString) (rest : T (Option Commands))
        → ((w : World)
            → IsReady J F H smgr w
            → (outs : List (List Output)) → length names ≤ length outs
            → Loop names w outs (rest w))
        → (w : World) → IsReady J F H smgr w
        → (o : Run (Option (Ptr Command))) → Makes J F H smgr name w o
        → (outs : List (List Output)) → suc (length names) ≤ length outs
        → Loop (name ∷ names) w outs (and_ask (done o) (λ cmd. after_create L r name cmd rest))
    unfolding after_create play
    round-Loop name names rest h w i o (missing {w' = w'} g f) outs e =
        let w2 : World = record w' {
          out =
              w'.out
              ++ text
                  (bytes "Failed to get read command for sensor with name " ++ (name ++ bytes "\n"))
                ∷ [];
        } in
        let g' : Grows w w2 = Grows-trans g (Grows-out w' w2.out) in
        let l = h w2 (IsReady-grow J F H smgr w w2 g' i) outs (omega arith) in
        record {
          cmds = none ∷ l.cmds;
          last = l.last;
          requests = l.requests;
          left = l.left;
          run = λ k.
              ap (λ t. play t (granted outs)) (and_ask_assoc (rest w2) _ k)
              ∙ l.run (with_entry J F H L r smgr none k);
          all = skips f l.all;
          grows = Grows-trans g' l.grows;
          blocks = l.blocks;
          new = Between-weaken w2.next w.next l.last.next (cmd_blocks l.cmds) g'.next l.new;
          replies = omega (arith, l.replies);
        }
    round-Loop name names rest h w i o (makes g is a b m) [] e = absurd (omega arith)
    round-Loop name names rest h w i o (makes {w' = w'} {c = c} g is a b m) (out ∷ outs) e =
        let w2 : World = record w' { out = w'.out ++ out } in
        let g' : Grows w w2 = Grows-trans g (Grows-out w' w2.out) in
        let l = h w2 (IsReady-grow J F H smgr w w2 g' i) outs (omega arith) in
        record {
          cmds = some c ∷ l.cmds;
          last = l.last;
          requests = queue_send (send_malloc c) ∷ l.requests;
          left = l.left;
          run = λ k. ap (before (queue_send (send_malloc c) ∷ [])) (
              ap (λ t. play t (granted outs)) (and_ask_assoc (rest w2) _ k)
              ∙ l.run (with_entry J F H L r smgr (some c) k));
          all = sends is l.all;
          grows = Grows-trans g' l.grows;
          blocks = (
            (l.grows.live c.addr m, l.blocks.0),
            (below-Above w'.next c.addr (cmd_blocks l.cmds) b l.new.0, l.blocks.1),
          );
          new =
              let (above, below) =
                Between-weaken w2.next w.next l.last.next (cmd_blocks l.cmds) g'.next l.new in
              ((a, above), (omega (arith, b, l.grows.next), below));
          replies = omega (arith, l.replies);
        }

    pub send_read_commands-Loop :
        (names : List CString)
        → All (λ name. (length name == 0) ≡ false) names
        → (w : World) → IsReady J F H smgr w
        → (outs : List (List Output)) → length names ≤ length outs
        → Loop names w outs (send_read_commands L J F H r smgr names w)
    unfolding send_read_commands play
    send_read_commands-Loop [] n w i outs e = record {
      cmds = [];
      last = w;
      requests = [];
      left = outs;
      run = λ k. refl;
      all = ends refl;
      grows = Grows-refl w;
      blocks = (tt, tt);
      new = (tt, tt);
      replies = omega arith;
    }
    send_read_commands-Loop (name ∷ names) (n, ns) w i outs e = rw n (
        round-Loop name names (send_read_commands L J F H r smgr names)
          (send_read_commands-Loop names ns) w i
          (sensor_manager_read_cmd_create J F H smgr (some name) w)
          (create-Makes J F H smgr name w i) outs e)

module _ (J : Cjson) (F : Uthash SensorConstructor) (H : Uthash SensorHashEntry)
    (smgr : Ptr (Manager J F H)) where
  -- The loop sends the read command of every name that the table has.
  pub send_read_commands-All :
      (L : Utlist (Ptr (CmdQNode (Ptr Command)))) (r : Runner L) (names : List CString)
      → All (λ name. (length name == 0) ≡ false) names
      → (w : World) → IsReady J F H smgr w
      → (outs : List (List Output)) → length names ≤ length outs
      → SendsAll J F H smgr names
          (play (send_read_commands L J F H r smgr names w) (granted outs)).0
  unfolding play
  send_read_commands-All L r names n w i outs e =
      let l = send_read_commands-Loop J F H smgr (Option Commands) L r names n w i outs e in
      let t = send_read_commands L J F H r smgr names w in
      subst (SendsAll J F H smgr names)
        (sym (ap (λ p. p.0) (l.run return))
          ∙ ap (λ t. (play t (granted outs)).0) (and_ask-return t))
        (subst (SendsAll J F H smgr names) (sym (append-nil l.requests)) l.all)
