-- ===== src/EieDevice/Startup.antt =====
-- src/proyecto/eie_device/tools/eie_device/main.c: what starting a device comes to.
use ie0417_dev_b.Base.{
  ℕ, ◌+◌, ◌≡◌, refl, ◌∙◌, true, false, none, some, List, [], ◌∷◌, ◌++◌, ℤ, pos, CString, bytes,
  length, take, leb, arith, ◌⊎◌, inl, inr,
}
use ie0417_dev_b.Process.{World, Ptr, mem, remove, mem-remove, length-remove, text, print, str}
use ie0417_dev_b.Uthash.{Uthash}
use ie0417_dev_b.EieDevice.{
  Mqtt, CjsonCase, DeviceHashEntry, FunctionInfo, EieDeviceConfig, info_create, eie_device_create,
  eie_device_start,
}
use ie0417_dev_b.EieDevice.Calls.{
  IsConfig, device_at, with_device, device_create-connects, destroy-run,
}
use ie0417_dev_b.EieDevice.Program.{
  CjsonBuild, wait_for_quit, test_json, start_and_wait, startup_test,
}
use ie0417_dev_b.EieDevice.Keys.{HoldsQuit, NoQuit, wait-keys}

module _ (H : Uthash DeviceHashEntry) (B : Mqtt) (J : CjsonCase) where
  open B use {Net, Client}

  -- The topic that a device is subscribed to, and the connection once it is.
  abbrev pub topic_of : EieDeviceConfig → CString
  topic_of cfg = bytes "eie-manager/" ++ cfg.name

  abbrev pub subscribed : EieDeviceConfig → Client → Net → Net
  subscribed cfg c net = (B.subscribe c (topic_of cfg) 0 (B.connect c 20 1 net).1).1

  abbrev after_start : World → EieDeviceConfig → World
  after_start w cfg = record w {
    next = w.next + 1;
    live = w.next ∷ w.live;
    out =
        w.out
        ++ text
            (bytes "Subscribing to topic " ++ (topic_of cfg ++ bytes " for client using QoS 0\n\n"))
          ∷ [];
  }

  start-run :
      (w : World) (a : ℕ) (cfg : EieDeviceConfig) (f : Ptr FunctionInfo) (c : Client) (net : Net)
      → w.oom w.next ≡ false
      → mem a w.live ≡ true
      → mem (a + 1 + 1 + 1 + 1) w.live ≡ true
      → eie_device_start H B (some (device_at H B J a cfg f c)) net w
        ≡ some ((pos 0, subscribed cfg c net), after_start w cfg)
  unfolding eie_device_start
  start-run w a cfg f c net m self client = rw (self, client, m) refl

  module _ (D : CjsonBuild) where
    open D use {Store}

    abbrev pub config : CString → EieDeviceConfig
    config json = record { name = bytes "testFeature"; config_json = json }

    abbrev info : ℕ → ℕ → Ptr FunctionInfo
    info a callback = record {
      addr = a;
      val = record { name = bytes "testCallback"; execute = callback };
    }

    -- The world once the device is there, and once it is started.
    abbrev pub sent : World → CString → World
    sent w json = record w {
      next = w.next + 1;
      live = w.next ∷ w.live;
      out = w.out ++ text (bytes "Feature sent:\n " ++ (json ++ bytes "\n")) ∷ [];
    }

    abbrev informed : World → World
    informed w = record w { next = w.next + 1 + 1; live = (w.next + 1) ∷ w.next ∷ w.live }

    abbrev waiting : World → CString → CString → World
    waiting w json display =
        let v = after_start (with_device H B J (informed w) display) (config json) in
        record v { out = v.out ++ text (bytes "Press Q<Enter> to quit\n") ∷ [] }

    -- The connection when the device is started.
    abbrev pub connected : World → Net → (json address id : CString) → Net
    connected w net json address id =
        let c = (B.create address id net).0 in
        subscribed (config json) c
          (B.set_callbacks c (w.next + 1 + 1) (B.create address id net).1).1

    module _ (callback : ℕ) (uninit : ℤ) (n : ℕ) (input : List ℕ) (net : Net) (w : World)
        (json address id : CString) (m : (n : ℕ) → w.oom n ≡ false)
        (c : IsConfig J (config json) address id) (short : leb 60 (length address) ≡ false)
        (short' : leb 60 (length id) ≡ false) where
      made :
          eie_device_create H B J (config json) (some (info (w.next + 1) callback)) net (informed w)
          ≡ some (
            (
              some (
                  device_at H B J
                    (w.next + 1 + 1)
                    (config json)
                    (info (w.next + 1) callback)
                    (B.create address id net).0),
              (B.set_callbacks
                  (B.create address id net).0
                  (w.next + 1 + 1)
                  (B.create address id net).1).1,
            ),
            with_device H B J (informed w) c.display,
          )
      made =
          device_create-connects H B J (informed w) (config json) (info (w.next + 1) callback) net
            address id m (ground arith) c
          ∙ rw (short, short') refl

      start-waits :
          wait_for_quit n input ≡ none
          → start_and_wait H B J D callback uninit n input json net w
            ≡ some (none, waiting w json c.display)
      unfolding start_and_wait info_create print
      start-waits e =
          rw
            (
              m w.next,
              m (w.next + 1),
              made,
              start-run (with_device H B J (informed w) c.display) (w.next + 1 + 1) (config json)
                  (info (w.next + 1) callback) _ _ (m _) (ground arith) (ground arith),
              e,
            )
            refl

      -- The world when the device is destroyed.
      abbrev exiting : World
      exiting =
          let v = waiting w json c.display in
          record v { out = v.out ++ text (bytes "Exiting execution\n") ∷ [] }

      abbrev after_exit : World
      after_exit = record exiting {
        live = remove (w.next + 1 + 1) (remove (w.next + 1 + 1 + 1) exiting.live);
      }

      length-after_exit : length after_exit.live ≡ 6 + length w.live
      length-after_exit =
          let a = w.next + 1 + 1 in
          let entry : mem (a + 1) exiting.live ≡ true = ground arith in
          let self : mem a exiting.live ≡ true = ground arith in
          omega (
            arith,
            length-remove (a + 1) exiting.live entry,
            length-remove a (remove (a + 1) exiting.live)
                (mem-remove a (a + 1) exiting.live (omega arith) self),
          )

      start-quits :
          (rest : List ℕ)
          → wait_for_quit n input ≡ some rest
          → start_and_wait H B J D callback uninit n input json net w
            ≡ some (
              some (B.destroy (B.create address id net).0 (connected w net json address id)),
              after_exit,
            )
      unfolding start_and_wait info_create print
      start-quits rest e =
          rw
            (
              m w.next,
              m (w.next + 1),
              made,
              start-run (with_device H B J (informed w) c.display) (w.next + 1 + 1) (config json)
                  (info (w.next + 1) callback) _ _ (m _) (ground arith) (ground arith),
              e,
              destroy-run H B J exiting (w.next + 1 + 1) (config json) (info (w.next + 1) callback)
                  (B.create address id net).0 (connected w net json address id) uninit
                  (ground arith) (ground arith) (ground arith),
            )
            refl

    startup-run :
        (callback : ℕ) (uninit : ℤ) (n : ℕ) (input : List ℕ) (store : Store) (net : Net) (w : World)
        (json : CString)
        → w.oom w.next ≡ false
        → (test_json D store).0 ≡ some json
        → startup_test H B J D callback uninit n input store net w
          ≡ start_and_wait H B J D callback uninit n input json net (sent w json)
    unfolding startup_test str print
    startup-run callback uninit n input store net w json m p = rw (m, p) refl

    -- With memory for every allocation, a document that is printed and read back with an address
    -- and an id of less than 60 bytes, `startupTest` comes to its end within any number n of rounds
    -- of its loop just if one of the first n keys of the input is a Q or a q: then the device was
    -- created, connected, subscribed and destroyed, and seven more blocks are allocated than
    -- before; and otherwise it is still waiting after n rounds, also behind the end of the input.
    pub startup_test-runs :
        (callback : ℕ) (uninit : ℤ) (n : ℕ) (input : List ℕ) (store : Store) (net : Net) (w : World)
        (json address id : CString)
        → ((n : ℕ) → w.oom n ≡ false)
        → (test_json D store).0 ≡ some json
        → IsConfig J (config json) address id
        → leb 60 (length address) ≡ false
        → leb 60 (length id) ≡ false
        → (HoldsQuit (take n input)
            × (w' : World) × (startup_test H B J D callback uninit n input store net w
                ≡ some (
                  some (
                      B.destroy
                        (B.create address id net).0
                        (connected (sent w json) net json address id)),
                  w',
                ))
            × (length w'.live ≡ 7 + length w.live))
          ⊎ (NoQuit (take n input)
              × (w' : World) × (startup_test H B J D callback uninit n input store net w
                  ≡ some (none, w')))
    startup_test-runs callback uninit n input store net w json address id m p c short short' =
        let first = startup-run callback uninit n input store net w json (m w.next) p in
        let v = sent w json in
        elim (wait-keys n input) [
          | inl (q, rest, e) ↦ inl (
            q,
            after_exit callback uninit n input net v json address id m c short short',
            first
                ∙ start-quits callback uninit n input net v json address id m c short short' rest e,
            omega (
              arith,
              length-after_exit callback uninit n input net v json address id m c short short',
            ),
          )
          | inr (q, e) ↦ inr (
            q,
            waiting v json c.display,
            first ∙ start-waits callback uninit n input net v json address id m c short short' e,
          )
        ]
