-- ===== src/SensorCommands/Manager/Created.antt =====
-- manager.c: creating the manager of a configuration, whatever memory is granted.
use ie0417_dev_b.Base.{
  ℕ, ◌+◌, ◌≡◌, sym, ap, ◌∙◌, subst, true, inl, inr, Option, none, some, ◌∷◌, ◌++◌, ℤ, is_nonzero,
  arith, Bool-cases, if◌then◌else◌,
}
use ie0417_dev_b.Process.{World, Run, M, Ptr, mem, and_then, if_null, pure, ◌>>=◌}
use ie0417_dev_b.Process.Growth.{Grows, Grows-refl, Grows-trans, Grows-granted, Denied, Denied-next}
use ie0417_dev_b.Uthash.{Uthash}
use ie0417_dev_b.Cjson.{Cjson}
use ie0417_dev_b.Files.{Files}
use ie0417_dev_b.SensorCommands.Factory.{SensorConstructor, SensorFactory, sensor_factory_create}
use ie0417_dev_b.SensorCommands.Factory.AnyMemory.{
  TriesFactory, refused_factory, made_factory, factory_create-Tries,
}
use ie0417_dev_b.SensorCommands.Manager.{
  SensorHashEntry, SensorManagerConfig, Manager, sensor_ht_create, sensor_manager_create,
}
use ie0417_dev_b.SensorCommands.Manager.Load.{Config}
use ie0417_dev_b.SensorCommands.Manager.Create.{IsConfig, handle_create-ok, handle_create-refused}
use ie0417_dev_b.SensorCommands.Manager.AnyMemory.{
  HoldsAll, Loads, failed, loaded, sensor_ht_create-Loads,
}

module _ (J : Cjson) (F : Uthash SensorConstructor) (H : Uthash SensorHashEntry) (w0 : World) where
  open J use {Json}
  open H use {Table, null, items, items-null}

  -- `sensor_manager_create` returns NULL where an allocation was refused, or a manager with the
  -- sensors of the configuration.
  pub data Created (l : Config) : Run (Option (Ptr (Manager J F H))) → Type 0 where
    none_created : {w' : World} → Denied w0 w' → Created l (some (none, w'))
    created :
        {w' : World} {p : Ptr (Manager J F H)}
        → mem p.addr w'.live ≡ true
        → HoldsAll w' l (items p.val.sensor_ht)
        → Created l (some (some p, w'))

  module _ (files : Files) (cfg : SensorManagerConfig) (l : Config) (junk : ℕ → ℕ)
      (c : IsConfig J files cfg.cfg_filename junk l) (a : ℕ) where
    -- The end of `sensor_manager_create`, with the manager in block `a`.
    abbrev after_table : Ptr (SensorFactory F.Table) → ℤ × Table → M (Option (Ptr (Manager J F H)))
    after_table sf (ret, t) =
        if is_nonzero ret
        then pure none
        else pure (
            some (record {
              addr = a;
              val = record { cfg = cfg; cfg_cjson = c.json; sf = sf; sensor_ht = t };
            }))

    abbrev after_factory : Option (Ptr (SensorFactory F.Table)) → M (Option (Ptr (Manager J F H)))
    after_factory factory =
        if_null factory (pure none) λ sf. do r ← sensor_ht_create J F H sf c.json; after_table sf r

    table-Created :
        (w : World) (sf : Ptr (SensorFactory F.Table)) (o : Run (ℤ × Table))
        → mem a w.live ≡ true
        → Loads J F H w0 w l null o
        → Created l (and_then o (after_table sf))
    table-Created w sf o m (failed bad d) = rw bad (none_created d)
    table-Created w sf o m (loaded {t' = t'} {w' = w'} es is g hs) =
        created (g.live a m) (subst (HoldsAll w' l) (sym (is ∙ ap (λ x. x ++ es) items-null)) hs)

    factory-Created :
        (w : World) (o : Run (Option (Ptr (SensorFactory F.Table))))
        → Grows w0 w
        → mem a w.live ≡ true
        → TriesFactory F w0 w o
        → Created l (and_then o after_factory)
    factory-Created w o g0 m (refused_factory g d) = none_created d
    factory-Created w o g0 m (made_factory {w' = w'} {p = sf} g f) =
        table-Created w' sf (sensor_ht_create J F H sf c.json w') (g.live a m) (
          sensor_ht_create-Loads J F H w0 w' files cfg.cfg_filename junk l c sf f
            (Grows-trans g0 g))

  -- Whatever memory is granted, on a configuration file that reads as a JSON object with an array
  -- of known sensors `sensor_manager_create` does not fault; it returns NULL, and then an
  -- allocation was refused, or a manager whose table holds exactly the sensors of the file, in its
  -- order, with the blocks of the manager, the entries and the sensors allocated.
  pub sensor_manager_create-Created :
      (files : Files) (cfg : SensorManagerConfig) (l : Config)
      → IsConfig J files cfg.cfg_filename (w0.junk (w0.next + 1)) l
      → Created l (sensor_manager_create J F H files cfg w0)
  unfolding sensor_manager_create
  sensor_manager_create-Created files cfg l c =
      let name = cfg.cfg_filename in
      let w1 : World = record w0 { next = w0.next + 1; live = w0.next ∷ w0.live } in
      let w2 : World = record w1 { next = w1.next + 1; live = w1.next ∷ w1.live } in
      let g1 = Grows-granted w0 w0.out in
      let g2 = Grows-trans g1 (Grows-granted w1 w0.out) in
      elim (Bool-cases (w0.oom w0.next)) [
        | inl o ↦ rw o (none_created (Denied-next w0 w0 (Grows-refl w0) o))
        | inr o ↦ elim (Bool-cases (w0.oom (w0.next + 1))) [
          | inl p ↦
              rw (o, handle_create-refused J files name w1 c.json p c.document)
                (none_created (Denied-next w0 w1 g1 p))
          | inr p ↦
              rw (o, handle_create-ok J files name w1 c.json p c.document)
                (factory-Created files cfg l (w0.junk (w0.next + 1)) c w0.next w2
                  (sensor_factory_create F w2) g2 (ground arith) (factory_create-Tries F w0 w2 g2))
        ]
      ]
