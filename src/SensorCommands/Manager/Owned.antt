-- ===== src/SensorCommands/Manager/Owned.antt =====
-- manager.c: the blocks of a manager that `sensor_manager_create` has loaded.
use ie0417_dev_b.Base.{ℕ, ◌+◌, ◌≤◌, ◌<◌, ◌≡◌, refl, List, [], ◌∷◌, arith, All, ◌≢◌}
use ie0417_dev_b.Process.{World}
use ie0417_dev_b.Process.Frees
use ie0417_dev_b.Process.Frees.{
  Distinct, Freeable, Above, Below, All-append, above-Below, below-Above, Below-weaken,
  Freeable-append, Freeable-cons,
}
use ie0417_dev_b.Uthash.{Uthash}
use ie0417_dev_b.Cjson.{Cjson}
use ie0417_dev_b.SensorCommands.Factory.{SensorConstructor}
use ie0417_dev_b.SensorCommands.Factory.Laws.{items-factory}
use ie0417_dev_b.SensorCommands.Manager.{SensorHashEntry, SensorManagerConfig}
use ie0417_dev_b.SensorCommands.Manager.Load.{Config, entries_of, added, grown}
use ie0417_dev_b.SensorCommands.Manager.Lookup.{AllLive, mem-added, added-AllLive}
use ie0417_dev_b.SensorCommands.Manager.Create.{prepared, manager}
use ie0417_dev_b.SensorCommands.Manager.AnyMemory.{HoldsAll}
use ie0417_dev_b.SensorCommands.Manager.Frees.{addresses, owns}

entries-live :
    (w : World) (n : ℕ) (l : Config)
    → AllLive w n l
    → Frees.AllLive w.live (addresses (entries_of n l))
entries-live w n [] h = tt
entries-live w n ((k, name) ∷ l) (m, live, h) = (m, entries-live w (n + 1 + 1 + 1) l h)

entries-Above : (m n : ℕ) (l : Config) → m ≤ n → Above m (addresses (entries_of n l))
entries-Above m n [] h = tt
entries-Above m n ((k, name) ∷ l) h =
    (omega (arith, h), entries-Above m (n + 1 + 1 + 1) l (omega (arith, h)))

entries-Distinct : (n : ℕ) (l : Config) → Distinct (addresses (entries_of n l))
entries-Distinct n [] = tt
entries-Distinct n ((k, name) ∷ l) = (
  below-Above (n + 1 + 1 + 1) (n + 1 + 1) (addresses (entries_of (n + 1 + 1 + 1) l)) (omega arith)
      (entries-Above (n + 1 + 1 + 1) (n + 1 + 1 + 1) l (omega arith)),
  entries-Distinct (n + 1 + 1 + 1) l,
)

AllLive-added :
    (w : World) (l : Config) (k : List ℕ)
    → Frees.AllLive w.live k
    → Frees.AllLive (added w l).live k
AllLive-added w l [] h = tt
AllLive-added w l (a ∷ k) (m, h) = (mem-added w l a m, AllLive-added w l k h)

-- The blocks of a factory and a manager, newest first but for the constructors.
abbrev base : ℕ → List ℕ → List ℕ
base n rest = (n + 1 + 1 + 1) ∷ (n + 1 + 1 + 1 + 1) ∷ (n + 1 + 1) ∷ n ∷ rest

module _ (w : World) (rest : List ℕ) (fr : Freeable rest w) (b : Below w.next rest) where
  rest-live : (k : List ℕ) → Frees.AllLive w.live k → Frees.AllLive (prepared w).live k
  rest-live [] h = tt
  rest-live (a ∷ k) (m, h) = (ground (arith, m), rest-live k h)

  base-Freeable : Freeable (base w.next rest) (prepared w)
  base-Freeable =
      let n = w.next in
      let self : Freeable (n ∷ rest) (prepared w) =
        Freeable-cons n rest (prepared w) (ground arith) b (rest-live rest fr.0, fr.1) in
      let sf : Freeable ((n + 1 + 1) ∷ n ∷ rest) (prepared w) =
        Freeable-cons (n + 1 + 1) (n ∷ rest) (prepared w) (ground arith)
          (omega arith, Below-weaken n (n + 1 + 1) rest (omega arith) b) self in
      let level : Freeable ((n + 1 + 1 + 1 + 1) ∷ (n + 1 + 1) ∷ n ∷ rest) (prepared w) =
        Freeable-cons (n + 1 + 1 + 1 + 1) ((n + 1 + 1) ∷ n ∷ rest) (prepared w) (ground arith)
          (omega arith, (omega arith, Below-weaken n (n + 1 + 1 + 1 + 1) rest (omega arith) b))
          sf in
      let other : All (λ b. n + 1 + 1 + 1 ≢ b) ((n + 1 + 1) ∷ n ∷ rest) =
        above-Below (n + 1 + 1 + 1) (n + 1 + 1 + 1) ((n + 1 + 1) ∷ n ∷ rest) (omega arith)
          (omega arith, (omega arith, Below-weaken n (n + 1 + 1 + 1) rest (omega arith) b)) in
      ((ground arith, level.0), (((λ e. omega (arith, e)), other), level.1))

  -- The blocks that destroying the manager frees are allocated and distinct.
  pub owns-Freeable :
      (J : Cjson) (F : Uthash SensorConstructor) (H : Uthash SensorHashEntry)
      (cfg : SensorManagerConfig) (j : J.Json) (l : Config) (t : H.Table)
      → H.items t ≡ entries_of (prepared w).next l
      → Freeable (owns J F H (manager J F H w.next cfg j t) rest) (added (prepared w) l)
  owns-Freeable J F H cfg j l t e =
      let n = (prepared w).next in
      let below : Below n (base w.next rest) = (
        omega arith,
        (omega arith, (omega arith, (omega arith, Below-weaken w.next n rest (omega arith) b))),
      ) in
      let based = base-Freeable in
      rw (e, items-factory F (w.next + 1 + 1))
        (Freeable-append n (addresses (entries_of n l)) (base w.next rest) (added (prepared w) l)
          (
            entries-live (added (prepared w) l) n l (added-AllLive (prepared w) l),
            entries-Distinct n l,
          )
          (AllLive-added (prepared w) l (base w.next rest) based.0, based.1)
          (entries-Above n n l (omega arith)) below)

added-next : (w : World) (l : Config) → w.next ≤ (added w l).next
added-next w [] = omega arith
added-next w ((k, name) ∷ l) = omega (arith, added-next (grown w k name) l)

pub added-oom : (w : World) (l : Config) → (added w l).oom ≡ w.oom
added-oom w [] = refl
added-oom w ((k, name) ∷ l) = added-oom (grown w k name) l

entries-Below : (w : World) (l : Config) → Below (added w l).next (addresses (entries_of w.next l))
entries-Below w [] = tt
entries-Below w ((k, name) ∷ l) =
    (omega (arith, added-next (grown w k name) l), entries-Below (grown w k name) l)

-- They are older than whatever is allocated next.
pub owns-Below :
    (J : Cjson) (F : Uthash SensorConstructor) (H : Uthash SensorHashEntry) (w : World)
    (rest : List ℕ) (cfg : SensorManagerConfig) (j : J.Json) (l : Config) (t : H.Table)
    → Below w.next rest
    → H.items t ≡ entries_of (prepared w).next l
    → Below (added (prepared w) l).next (owns J F H (manager J F H w.next cfg j t) rest)
owns-Below J F H w rest cfg j l t b e =
    let m = (added (prepared w) l).next in
    let far = added-next (prepared w) l in
    rw (e, items-factory F (w.next + 1 + 1))
      (All-append (λ a. a < m) (addresses (entries_of (prepared w).next l)) (base w.next rest)
        (entries-Below (prepared w) l)
        (
          omega (arith, far),
          (
            omega (arith, far),
            (
              omega (arith, far),
              (omega (arith, far), Below-weaken w.next m rest (omega (arith, far)) b),
            ),
          ),
        ))

-- The entries are those of the configuration.
pub entries-HoldsAll :
    (w : World) (n : ℕ) (l : Config) → AllLive w n l → HoldsAll w l (entries_of n l)
entries-HoldsAll w n [] h = tt
entries-HoldsAll w n ((k, name) ∷ l) (m, live, h) = (
  record { block = n; key = refl; sensor = refl; live_entry = m; live = live },
  entries-HoldsAll w (n + 1 + 1 + 1) l h,
)
