-- ===== src/SensorCommands/Factory/Laws.antt =====
-- factory.c: the factory that is created, the sensors that it makes, and what it frees.
use ie0417_dev_b.Base.{
  ℕ, ◌+◌, ◌≡◌, refl, sym, Bool, true, false, ◌||◌, inl, inr, Option, none, some, is_some, List, [],
  ◌∷◌, CString, bytes, bytes_eq, if◌then◌else◌, arith, ap, ◌∙◌, subst,
}
use ie0417_dev_b.Process.{World, M, Ptr, mem, ◌>>=◌, if_null, pure, free, and_then}
use ie0417_dev_b.Uthash.{Uthash, Entry, has_key}
use ie0417_dev_b.SensorCommands.Types.{Sensor}
use ie0417_dev_b.SensorCommands.Sensor.{level_sensor_create, temp_sensor_create}
use ie0417_dev_b.SensorCommands.Factory.{
  CreateFn, temp_create, level_create, SensorConstructor, SensorFactory, sensor_factory_create,
  call_create, sensor_factory_sensor_create, sensor_factory_destroy, ctor_ht_destroy_loop,
}

abbrev pub temperature : CString
temperature = bytes "temperature"

abbrev pub level : CString
level = bytes "level"

-- The table entry in block `a`.
abbrev pub ctor : ℕ → CString → CreateFn → CString × Ptr SensorConstructor
ctor a type f =
    (type, record { addr = a; val = record { info = record { type = type; create_fn = some f } } })

neither :
    {A : Type 0} (s t : Bool) (x y z : A)
    → (s || (t || false)) ≡ false
    → z ≡ (if s then x else if t then y else z)
neither s t x y z h = ground arith

module _ (H : Uthash SensorConstructor) where
  open H use {
    Table, null, add_keyptr, find, delete, items, items-null, items-add, items-delete, is_some-find,
    find-Entry,
  }

  -- A complete factory: its block and those of its two constructors are allocated.
  pub record IsFactory (w : World) (p : Ptr (SensorFactory Table)) (a b : ℕ) : Type 0 where
    pub live_self : mem p.addr w.live ≡ true
    pub live_temp : mem a w.live ≡ true
    pub live_level : mem b w.live ≡ true
    pub ctors :
        items p.val.ctor_ht ≡ ctor a temperature temp_create ∷ ctor b level level_create ∷ []

  abbrev pub factory : ℕ → Ptr (SensorFactory Table)
  factory a = record {
    addr = a;
    val = record {
      ctor_ht =
          add_keyptr (add_keyptr null temperature (ctor (a + 1) temperature temp_create).1) level
            (ctor (a + 1 + 1) level level_create).1;
    };
  }

  -- The world after three allocations.
  abbrev pub allocated_three : World → World
  allocated_three w = record w {
    next = w.next + 1 + 1 + 1;
    live = (w.next + 1 + 1) ∷ (w.next + 1) ∷ w.next ∷ w.live;
  }

  pub items-factory :
      (a : ℕ)
      → items (factory a).val.ctor_ht
        ≡ ctor (a + 1) temperature temp_create ∷ ctor (a + 1 + 1) level level_create ∷ []
  items-factory a = simp (items-add, items-null)

  sensor_factory_create-ok :
      (w : World)
      → w.oom w.next ≡ false
      → w.oom (w.next + 1) ≡ false
      → w.oom (w.next + 1 + 1) ≡ false
      → sensor_factory_create H w ≡ some (some (factory w.next), allocated_three w)
  unfolding sensor_factory_create
  sensor_factory_create-ok w p q r = ground arith

  pub sensor_factory_create-IsFactory :
      (w : World)
      → w.oom w.next ≡ false
      → w.oom (w.next + 1) ≡ false
      → w.oom (w.next + 1 + 1) ≡ false
      → (sensor_factory_create H w ≡ some (some (factory w.next), allocated_three w))
        × IsFactory (allocated_three w) (factory w.next) (w.next + 1) (w.next + 1 + 1)
  sensor_factory_create-IsFactory w p q r = (
    sensor_factory_create-ok w p q r,
    record {
      live_self = ground arith;
      live_temp = ground arith;
      live_level = ground arith;
      ctors = items-factory w.next;
    },
  )

  -- What the factory promises: the constructor of the type, and NULL for any other type.
  abbrev pub create_by_type : (type : CString) (name : Option CString) → M (Option (Ptr Sensor))
  create_by_type type name w =
      if bytes_eq temperature type
      then temp_sensor_create name w
      else if bytes_eq level type
      then level_sensor_create name w
      else some (none, w)

  module _ (w : World) (p : Ptr (SensorFactory Table)) (type : CString)
      (name : Option CString) where
    sensor_create-missing :
        mem p.addr w.live ≡ true
        → find p.val.ctor_ht type ≡ none
        → sensor_factory_sensor_create H p (some type) name w ≡ some (none, w)
    unfolding sensor_factory_sensor_create
    sensor_create-missing h e = ground arith

    sensor_create-found :
        mem p.addr w.live ≡ true
        → (q : Ptr SensorConstructor) → find p.val.ctor_ht type ≡ some q
        → mem q.addr w.live ≡ true
        → sensor_factory_sensor_create H p (some type) name w
          ≡ call_create q.val.info.create_fn name w
    unfolding sensor_factory_sensor_create
    sensor_create-found h q e l = ground arith

  -- On a complete factory `sensor_factory_sensor_create` runs the constructor of the temperature or
  -- the level sensor by the type, and for any other type returns NULL and changes nothing.
  pub sensor_create-by_type :
      (w : World) (p : Ptr (SensorFactory Table)) (a b : ℕ)
      → IsFactory w p a b
      → (type : CString) (name : Option CString)
      → sensor_factory_sensor_create H p (some type) name w ≡ create_by_type type name w
  sensor_create-by_type w p a b f type name = go (find p.val.ctor_ht type) refl
    where
      open f use {live_self, live_temp, live_level, ctors}

      found :
          (q : Ptr SensorConstructor)
          → find p.val.ctor_ht type ≡ some q
          → Entry type q (ctor a temperature temp_create ∷ ctor b level level_create ∷ [])
          → sensor_factory_sensor_create H p (some type) name w ≡ create_by_type type name w
      found q e (inl (k, is)) =
          sensor_create-found w p type name live_self q e (rw (← is) live_temp) ∙ rw (← is, ← k)
      found q e (inr (inl (k, is))) =
          sensor_create-found w p type name live_self q e (rw (← is) live_level) ∙ rw (← is, ← k)
      found q e (inr (inr bad)) = absurd bad

      go :
          (o : Option (Ptr SensorConstructor))
          → find p.val.ctor_ht type ≡ o
          → sensor_factory_sensor_create H p (some type) name w ≡ create_by_type type name w
      go none e =
          sensor_create-missing w p type name live_self e
          ∙ neither (bytes_eq temperature type) (bytes_eq level type) _ _ _
              (sym (is_some-find p.val.ctor_ht type ∙ ap (has_key type) ctors) ∙ ap is_some e)
      go (some q) e = found q e (subst (Entry type q) ctors (find-Entry p.val.ctor_ht type q e))

  pub destroy-items :
      (p : Ptr (SensorFactory Table)) (w : World) (l : List (CString × Ptr SensorConstructor))
      → items p.val.ctor_ht ≡ l
      → mem p.addr w.live ≡ true
      → sensor_factory_destroy H p w
        ≡ and_then (ctor_ht_destroy_loop H l p.val.ctor_ht w) (λ _. free p.addr)
  unfolding sensor_factory_destroy
  destroy-items p w l e h =
      rw h (ap (λ m. and_then (ctor_ht_destroy_loop H m p.val.ctor_ht w) (λ _. free p.addr)) e)

  -- With memory for three allocations, a factory that is created and destroyed leaves the allocated
  -- blocks as they were, and changes nothing else but the count of allocations.
  pub sensor_factory_destroy-create :
      (w : World)
      → w.oom w.next ≡ false
      → w.oom (w.next + 1) ≡ false
      → w.oom (w.next + 1 + 1) ≡ false
      → (do sf ← sensor_factory_create H; if_null sf (pure tt) (sensor_factory_destroy H)) w
        ≡ some (tt, record w { next = w.next + 1 + 1 + 1 })
  unfolding sensor_factory_destroy
  sensor_factory_destroy-create w p q r =
      rw
        (
          sensor_factory_create-ok w p q r,
          destroy-items (factory w.next) (allocated_three w) _ (items-factory w.next)
              (ground arith),
        )
        (ground arith)

  -- Where the block of the factory is granted and that of its first constructor is not,
  -- `sensor_factory_create` returns a factory all the same, and it makes no sensor of any type.
  pub sensor_factory_create-no_ctors :
      (w : World)
      → w.oom w.next ≡ false
      → w.oom (w.next + 1) ≡ true
      → (sf : Ptr (SensorFactory Table)) × (w' : World) × (sensor_factory_create H w
          ≡ some (some sf, w'))
        × ((type : CString) (name : Option CString)
            → sensor_factory_sensor_create H sf (some type) name w' ≡ some (none, w'))
  unfolding sensor_factory_create
  sensor_factory_create-no_ctors w p q =
      let sf : Ptr (SensorFactory Table) = record {
        addr = w.next;
        val = record { ctor_ht = null };
      } in
      let w' = record w { next = w.next + 1 + 1; live = w.next ∷ w.live } in
      (
        sf,
        w',
        ground arith,
        λ type name. sensor_create-missing w' sf type name (ground arith) (missing type),
      )
    where
      missing : (type : CString) → find null type ≡ none
      missing type = ground (arith, is_some-find null type, ap (has_key type) items-null)
