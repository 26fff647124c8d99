-- ===== src/SensorCommands/Manager/Frees.antt =====
-- manager.c: destroying a manager whose blocks are allocated and distinct.
use ie0417_dev_b.Base.{ℕ, ◌≡◌, refl, some, List, [], ◌∷◌, ◌++◌, CString}
use ie0417_dev_b.Process.{World, Ptr}
use ie0417_dev_b.Process.Frees.{Freeable, freed, AllLive-behind, free-Freeable}
use ie0417_dev_b.Uthash.{Uthash}
use ie0417_dev_b.Cjson.{Cjson}
use ie0417_dev_b.SensorCommands.Factory.{
  SensorConstructor, SensorFactory, ctor_ht_destroy, ctor_ht_destroy_loop, sensor_factory_destroy,
}
use ie0417_dev_b.SensorCommands.Manager.{
  SensorHashEntry, Manager, sensor_ht_destroy, sensor_ht_destroy_loop, sensor_manager_destroy,
}

abbrev pub addresses : {X : Type 0} → List (CString × Ptr X) → List ℕ
addresses [] = []
addresses ((k, p) ∷ l) = p.addr ∷ addresses l

module _ (J : Cjson) (F : Uthash SensorConstructor) (H : Uthash SensorHashEntry) where
  -- The blocks that a factory and a manager free.
  abbrev pub factory_owns : Ptr (SensorFactory F.Table) → List ℕ → List ℕ
  factory_owns p rest = addresses (F.items p.val.ctor_ht) ++ p.addr ∷ rest

  abbrev pub owns : Ptr (Manager J F H) → List ℕ → List ℕ
  owns p rest = addresses (H.items p.val.sensor_ht) ++ factory_owns p.val.sf (p.addr ∷ rest)

  ctors-free :
      (l : List (CString × Ptr SensorConstructor)) (t : F.Table) (rest : List ℕ) (w : World)
      → Freeable (addresses l ++ rest) w
      → (t' : F.Table) × (w' : World) × (ctor_ht_destroy_loop F l t w ≡ some (t', w'))
        × Freeable rest w'
  unfolding ctor_ht_destroy_loop
  ctors-free [] t rest w h = (t, w, refl, h)
  ctors-free ((k, p) ∷ l) t rest w h =
      let (ran, h') = free-Freeable p.addr (addresses l ++ rest) w h in
      let (t', w', run, r) = ctors-free l (F.delete t p) rest (freed p.addr w) h' in
      (t', w', rw ran run, r)

  entries-free :
      (l : List (CString × Ptr SensorHashEntry)) (t : H.Table) (rest : List ℕ) (w : World)
      → Freeable (addresses l ++ rest) w
      → (t' : H.Table) × (w' : World) × (sensor_ht_destroy_loop J F H l t w ≡ some (t', w'))
        × Freeable rest w'
  unfolding sensor_ht_destroy_loop
  entries-free [] t rest w h = (t, w, refl, h)
  entries-free ((k, p) ∷ l) t rest w h =
      let (ran, h') = free-Freeable p.addr (addresses l ++ rest) w h in
      let (t', w', run, r) = entries-free l (H.delete t p) rest (freed p.addr w) h' in
      (t', w', rw ran run, r)

  factory-free :
      (p : Ptr (SensorFactory F.Table)) (rest : List ℕ) (w : World)
      → Freeable (factory_owns p rest) w
      → (w' : World) × (sensor_factory_destroy F p w ≡ some (tt, w')) × Freeable rest w'
  unfolding sensor_factory_destroy ctor_ht_destroy
  factory-free p rest w h =
      let l = F.items p.val.ctor_ht in
      let (t', w1, run, h1) = ctors-free l p.val.ctor_ht (p.addr ∷ rest) w h in
      let (ran, h2) = free-Freeable p.addr rest w1 h1 in
      (
        freed p.addr w1,
        rw ((AllLive-behind (addresses l) (p.addr ∷ rest) w.live h.0).0, run) ran,
        h2,
      )

  -- Destroying a manager frees its blocks and leaves the others.
  pub manager-free :
      (p : Ptr (Manager J F H)) (rest : List ℕ) (w : World)
      → Freeable (owns p rest) w
      → (w' : World) × (sensor_manager_destroy J F H p w ≡ some (tt, w')) × Freeable rest w'
  unfolding sensor_manager_destroy sensor_ht_destroy
  manager-free p rest w h =
      let l = H.items p.val.sensor_ht in
      let behind =
        AllLive-behind (addresses l) (factory_owns p.val.sf (p.addr ∷ rest)) w.live h.0 in
      let m =
        (AllLive-behind (addresses (F.items p.val.sf.val.ctor_ht)) (p.val.sf.addr ∷ p.addr ∷ rest)
          w.live behind).1.0 in
      let (t', w1, run, h1) =
        entries-free l p.val.sensor_ht (factory_owns p.val.sf (p.addr ∷ rest)) w h in
      let (w2, run2, h2) = factory-free p.val.sf (p.addr ∷ rest) w1 h1 in
      let (ran, h3) = free-Freeable p.addr rest w2 h2 in
      (freed p.addr w2, rw (m, run, run2) ran, h3)
