-- ===== src/SensorCommands/Manager/AnyMemory.antt =====
-- manager.c: loading the sensors of a configuration, whatever memory is granted.
use ie0417_dev_b.Base.{
  ℕ, ◌+◌, ◌≡◌, refl, sym, ap, ◌∙◌, true, inl, inr, Option, some, List, [], ◌∷◌, ◌++◌, ℤ, pos,
  is_nonzero, CString, arith, Bool-cases, length, append-nil, append_assoc, if◌then◌else◌,
}
use ie0417_dev_b.Process.{World, Run, M, Ptr, mem, and_then, if_null, pure, ◌>>=◌, sensor_added}
use ie0417_dev_b.Process.Growth.{Grows, Grows-refl, Grows-trans, Grows-granted, Denied, Denied-next}
use ie0417_dev_b.Uthash.{Uthash}
use ie0417_dev_b.Cjson.{Cjson}
use ie0417_dev_b.Files.{Files}
use ie0417_dev_b.SensorCommands.Types.{Sensor}
use ie0417_dev_b.SensorCommands.Factory.{
  CreateFn, temp_create, level_create, SensorConstructor, SensorFactory, minus_enomem,
  sensor_factory_sensor_create,
}
use ie0417_dev_b.SensorCommands.Factory.AnyMemory.{
  Tries, refused, made, IsPartial, IsPartial-grow, sensor_create-Tries,
}
use ie0417_dev_b.SensorCommands.Manager.{
  SensorHashEntry, minus_one, sensor_ht_add, sensor_ht_loop, sensor_ht_create,
}
use ie0417_dev_b.SensorCommands.Manager.Load.{
  Kind, temp, lev, type_of, sensor_of, Config, Describes, add-ok,
}
use ie0417_dev_b.SensorCommands.Manager.Lookup.{LiveAt}
use ie0417_dev_b.SensorCommands.Manager.Create.{IsConfig}

-- An entry of the table for a sensor of the configuration: its blocks are allocated.
pub record Holds (w : World) (k : Kind) (name : CString) (e : CString × Ptr SensorHashEntry)
    : Type 0 where
  pub block : ℕ
  pub key : e.0 ≡ name
  pub sensor : e.1.val.ssr ≡ sensor_of k block name
  pub live_entry : mem e.1.addr w.live ≡ true
  pub live : LiveAt w block

-- The entries are those of the sensors of the configuration, in its order.
abbrev pub HoldsAll : World → Config → List (CString × Ptr SensorHashEntry) → Type 0
HoldsAll w [] [] = Unit
HoldsAll w ((k, name) ∷ l) (e ∷ es) = Holds w k name e × HoldsAll w l es
HoldsAll w _ _ = ⊥

abbrev ctor_of : Kind → CreateFn
ctor_of temp = temp_create
ctor_of lev = level_create

module _ (J : Cjson) (F : Uthash SensorConstructor) (H : Uthash SensorHashEntry) (w0 : World) where
  open J use {Json}
  open H use {Table, null, add_keyptr, items, items-null, items-add}

  -- Since the world `w0`, an allocation was refused and the loop returns a code that is not 0, or it has added an entry for every sensor.
  pub data Loads (w : World) (l : Config) (t : Table) : Run (ℤ × Table) → Type 0 where
    failed :
        {z : ℤ} {t' : Table} {w' : World}
        → is_nonzero z ≡ true
        → Denied w0 w'
        → Loads w l t (some ((z, t'), w'))
    loaded :
        {t' : Table} {w' : World} (es : List (CString × Ptr SensorHashEntry))
        → items t' ≡ items t ++ es
        → Grows w w'
        → HoldsAll w' l es
        → Loads w l t (some ((pos 0, t'), w'))

  create-Tries :
      (w : World) (sf : Ptr (SensorFactory F.Table))
      → IsPartial F w0 w sf
      → Grows w0 w
      → (k : Kind) (name : CString)
      → Tries w0
          (ctor_of k)
          (some name)
          w
          (sensor_factory_sensor_create F sf (some (type_of k)) (some name) w)
  create-Tries w sf f g temp name = sensor_create-Tries F w0 w sf f g temp_create (some name)
  create-Tries w sf f g lev name = sensor_create-Tries F w0 w sf f g level_create (some name)

  add-refused :
      (w : World) (t : Table) (p : Ptr Sensor)
      → w.oom w.next ≡ true
      → sensor_ht_add J F H t p w ≡ some ((minus_enomem, t), record w { next = w.next + 1 })
  unfolding sensor_ht_add
  add-refused w t p o = rw o refl

  Holds-grow :
      (w w' : World) (k : Kind) (name : CString) (e : CString × Ptr SensorHashEntry)
      → Grows w w'
      → Holds w k name e
      → Holds w' k name e
  Holds-grow w w' k name e g h = record {
    block = h.block;
    key = h.key;
    sensor = h.sensor;
    live_entry = g.live e.1.addr h.live_entry;
    live = (g.live (h.block + 1) h.live.0, g.live h.block h.live.1);
  }

  -- An entry before those that the rest of the loop adds.
  Loads-cons :
      (w w2 : World) (k : Kind) (name : CString) (l : Config) (t t2 : Table)
      (e : CString × Ptr SensorHashEntry) (o : Run (ℤ × Table))
      → Grows w w2
      → items t2 ≡ items t ++ e ∷ []
      → Holds w2 k name e
      → Loads w2 l t2 o
      → Loads w ((k, name) ∷ l) t o
  Loads-cons w w2 k name l t t2 e o g i h (failed z d) = failed z d
  Loads-cons w w2 k name l t t2 e o g i h (loaded {w' = w'} es is g' hs) =
      loaded (e ∷ es) (is ∙ ap (λ x. x ++ es) i ∙ append_assoc (items t) (e ∷ []) es)
        (Grows-trans g g') (Holds-grow w2 w' k name e g' h, hs)

  -- The sensor is added, and the rest of the loop goes on.
  abbrev after_add : Table → Ptr Sensor → (Table → M (ℤ × Table)) → M (ℤ × Table)
  after_add t s rest = do
    (ret, t') ← sensor_ht_add J F H t s
    if is_nonzero ret then pure (ret, t') else rest t'

  -- The round of a sensor that was made in block `a`.
  added-Loads :
      (w w1 : World) (k : Kind) (name : CString) (l : Config) (t : Table)
      (rest : Table → M (ℤ × Table)) (a : ℕ)
      → Grows w0 w
      → Grows w w1
      → LiveAt w1 a
      → ((w2 : World) (t2 : Table) → Grows w w2 → Loads w2 l t2 (rest t2 w2))
      → Loads w ((k, name) ∷ l) t (after_add t (sensor_of k a name) rest w1)
  added-Loads w w1 k name l t rest a g0 g live h = elim (Bool-cases (w1.oom w1.next)) [
    | inl o ↦
        rw (add-refused w1 t (sensor_of k a name) o)
          (failed refl (Denied-next w0 w1 (Grows-trans g0 g) o))
    | inr o ↦ rw (add-ok J F H w1 t a o live.0 k name) (
        let s = sensor_of k a name in
        let e : CString × Ptr SensorHashEntry =
          (name, record { addr = w1.next; val = record { ssr = s } }) in
        let w2 : World = record w1 {
          next = w1.next + 1;
          live = w1.next ∷ w1.live;
          out = w1.out ++ sensor_added name (type_of k) ∷ [];
        } in
        let grown : Grows w1 w2 = Grows-granted w1 _ in
        let grown' : Grows w w2 = Grows-trans g grown in
        let holds : Holds w2 k name e = record {
          block = a;
          key = refl;
          sensor = refl;
          live_entry = ground arith;
          live = (grown.live (a + 1) live.0, grown.live a live.1);
        } in
        Loads-cons w w2 k name l t (add_keyptr t name e.1) e _ grown' (items-add t name e.1) holds
          (h w2 (add_keyptr t name e.1) grown'))
  ]

  -- The round of a configured sensor, with the rest of the loop.
  round-Loads :
      (w : World) (k : Kind) (name : CString) (l : Config) (t : Table)
      (rest : Table → M (ℤ × Table))
      → Grows w0 w
      → ((w2 : World) (t2 : Table) → Grows w w2 → Loads w2 l t2 (rest t2 w2))
      → (o : Run (Option (Ptr Sensor))) → Tries w0 (ctor_of k) (some name) w o
      → Loads w
          ((k, name) ∷ l)
          t
          (and_then o (λ ssr. if_null ssr (pure (minus_one, t)) (λ s. after_add t s rest)))
  round-Loads w k name l t rest g0 h o (refused g d) = failed refl d
  round-Loads w temp name l t rest g0 h o (made {w' = w1} g live live') =
      added-Loads w w1 temp name l t rest w.next g0 g (live', live) h
  round-Loads w lev name l t rest g0 h o (made {w' = w1} g live live') =
      added-Loads w w1 lev name l t rest w.next g0 g (live', live) h

  sensor_ht_loop-Loads :
      (w : World) (sf : Ptr (SensorFactory F.Table))
      → IsPartial F w0 w sf
      → Grows w0 w
      → (sensors : Json) (i : ℕ) (l : Config) → Describes J sensors i l
      → (t : Table) → Loads w l t (sensor_ht_loop J F H sf sensors (length l) i t w)
  unfolding sensor_ht_loop
  sensor_ht_loop-Loads w sf f g sensors i [] d t =
      loaded [] (sym (append-nil (items t))) (Grows-refl w) tt
  sensor_ht_loop-Loads w sf f g sensors i ((k, name) ∷ l) (d, ds) t =
      rw (d.has_type, d.has_name, d.type_string, d.name_string)
        (round-Loads w k name l t (sensor_ht_loop J F H sf sensors (length l) (i + 1)) g
          (λ w2 t2 g2.
            sensor_ht_loop-Loads w2 sf (IsPartial-grow F w0 g2 f) (Grows-trans g g2) sensors (i + 1)
              l ds t2)
          (sensor_factory_sensor_create F sf (some (type_of k)) (some name) w)
          (create-Tries w sf f g k name))

  pub sensor_ht_create-Loads :
      (w : World) (files : Files) (name : CString) (junk : ℕ → ℕ) (l : Config)
      (c : IsConfig J files name junk l) (sf : Ptr (SensorFactory F.Table))
      → IsPartial F w0 w sf
      → Grows w0 w
      → Loads w l null (sensor_ht_create J F H sf c.json w)
  unfolding sensor_ht_create
  sensor_ht_create-Loads w files name junk l c sf f g =
      rw (c.has_sensors, c.size) (sensor_ht_loop-Loads w sf f g c.sensors 0 l c.described null)
