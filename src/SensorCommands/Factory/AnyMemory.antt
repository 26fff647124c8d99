-- ===== src/SensorCommands/Factory/AnyMemory.antt =====
-- factory.c: the factory and the sensors that it makes, whatever memory is granted.
use ie0417_dev_b.Base.{
  ℕ, ◌+◌, ◌≡◌, refl, sym, ap, ◌∙◌, subst, true, false, inl, inr, Option, none, some, is_some, List,
  [], ◌∷◌, CString, arith, Bool-cases, Option-cases,
}
use ie0417_dev_b.Process.{World, Run, Ptr, mem}
use ie0417_dev_b.Process.Growth.{
  Grows, Grows-refl, Grows-trans, Grows-denied, Grows-granted, Denied, Denied-grow, Denied-next,
}
use ie0417_dev_b.Uthash.{Uthash, Entry, has_key}
use ie0417_dev_b.SensorCommands.Types.{Sensor}
use ie0417_dev_b.SensorCommands.Sensor.Lifecycle.{
  level_sensor, temp_sensor, constructed, level_sensor_create-constructed,
  temp_sensor_create-constructed,
}
use ie0417_dev_b.SensorCommands.Factory.{
  CreateFn, temp_create, level_create, SensorConstructor, SensorFactory, call_create,
  sensor_factory_create, sensor_factory_sensor_create,
}
use ie0417_dev_b.SensorCommands.Factory.Laws.{temperature, level, ctor}

-- The type that a constructor is registered under, and the sensor that it builds.
abbrev pub type_name : CreateFn → CString
type_name temp_create = temperature
type_name level_create = level

abbrev pub built : CreateFn → ℕ → Option CString → Ptr Sensor
built temp_create = temp_sensor
built level_create = level_sensor

type_name-injective : (f g : CreateFn) → type_name f ≡ type_name g → f ≡ g
type_name-injective temp_create temp_create h = refl
type_name-injective temp_create level_create h = absurd (ground arith)
type_name-injective level_create temp_create h = absurd (ground arith)
type_name-injective level_create level_create h = refl

-- Since the world `w0`, an allocation was refused and the constructor call has failed, or it has made
-- a sensor in the next two blocks.
pub data Tries (w0 : World) (f : CreateFn) (name : Option CString) (w : World)
    : Run (Option (Ptr Sensor)) → Type 0 where
  refused : {w' : World} → Grows w w' → Denied w0 w' → Tries w0 f name w (some (none, w'))
  made :
      {w' : World}
      → Grows w w'
      → mem w.next w'.live ≡ true
      → mem (w.next + 1) w'.live ≡ true
      → Tries w0 f name w (some (some (built f w.next name), w'))

module _ (w0 : World) where
  constructed-Tries :
      (f : CreateFn) (name : Option CString) (w : World)
      → Grows w0 w
      → Tries w0 f name w (constructed w (built f w.next name))
  constructed-Tries f name w g =
      let w1 : World = record w { next = w.next + 1; live = w.next ∷ w.live } in
      let g1 = Grows-granted w w.out in
      elim (Bool-cases (w.oom w.next)) [
        | inl o ↦ rw (constructed, o) (refused (Grows-denied w) (Denied-next w0 w g o))
        | inr o ↦ elim (Bool-cases (w.oom (w.next + 1))) [
          | inl p ↦
              rw (constructed, o, p)
                (refused (Grows-trans g1 (Grows-denied w1))
                  (Denied-next w0 w1 (Grows-trans g g1) p))
          | inr p ↦
              rw (constructed, o, p)
                (made (Grows-trans g1 (Grows-granted w1 w.out)) (ground arith) (ground arith))
        ]
      ]

  call_create-Tries :
      (f : CreateFn) (name : Option CString) (w : World)
      → Grows w0 w
      → Tries w0 f name w (call_create (some f) name w)
  call_create-Tries temp_create name w g =
      rw (temp_sensor_create-constructed name w) (constructed-Tries temp_create name w g)
  call_create-Tries level_create name w g =
      rw (level_sensor_create-constructed name w) (constructed-Tries level_create name w g)

module _ (H : Uthash SensorConstructor) (w0 : World) where
  open H use {Table, null, add_keyptr, find, items, items-null, items-add, find-Entry, is_some-find}

  -- A factory with some of its constructors: what it finds under a type is the constructor of that
  -- type, and is allocated; where it finds none, an allocation was refused.
  pub record IsPartial (w : World) (p : Ptr (SensorFactory Table)) : Type 0 where
    pub live_self : mem p.addr w.live ≡ true
    pub sound :
        (f : CreateFn) (q : Ptr SensorConstructor)
        → find p.val.ctor_ht (type_name f) ≡ some q
        → (mem q.addr w.live ≡ true) × (q.val.info.create_fn ≡ some f)
    pub complete : (f : CreateFn) → find p.val.ctor_ht (type_name f) ≡ none → Denied w0 w

  pub IsPartial-grow :
      {w w' : World} {p : Ptr (SensorFactory Table)} → Grows w w' → IsPartial w p → IsPartial w' p
  IsPartial-grow {w} {w'} {p} g h = record {
    live_self = g.live p.addr h.live_self;
    sound = λ f q e. let (l, c) = h.sound f q e in (g.live q.addr l, c);
    complete = λ f e. Denied-grow w0 w w' g (h.complete f e);
  }

  pub sensor_create-Tries :
      (w : World) (p : Ptr (SensorFactory Table))
      → IsPartial w p
      → Grows w0 w
      → (f : CreateFn) (name : Option CString)
      → Tries w0 f name w (sensor_factory_sensor_create H p (some (type_name f)) name w)
  unfolding sensor_factory_sensor_create
  sensor_create-Tries w p h g f name = elim (Option-cases (find p.val.ctor_ht (type_name f))) [
    | inl e ↦ rw (h.live_self, e) (refused (Grows-refl w) (h.complete f e))
    | inr (q, e) ↦
        let (l, c) = h.sound f q e in rw (h.live_self, e, l, c) (call_create-Tries w0 f name w g)
  ]

  -- The entries of the table of a factory.
  abbrev Sound : World → List (CString × Ptr SensorConstructor) → Type 0
  Sound w [] = Unit
  Sound w ((k, q) ∷ l) =
      ((f : CreateFn) × (k ≡ type_name f)
        × (q.val.info.create_fn ≡ some f)
        × (mem q.addr w.live ≡ true))
      × Sound w l

  Entry-Sound :
      (w : World) (l : List (CString × Ptr SensorConstructor))
      → Sound w l
      → (f : CreateFn) (q : Ptr SensorConstructor) → Entry (type_name f) q l
      → (mem q.addr w.live ≡ true) × (q.val.info.create_fn ≡ some f)
  Entry-Sound w [] s f q e = absurd e
  Entry-Sound w ((k, r) ∷ l) ((g, i, c, m), s) f q (inl (j, is)) =
      (rw (← is) m, rw (← is) (c ∙ ap some (type_name-injective g f (sym i ∙ j))))
  Entry-Sound w ((k, r) ∷ l) (h, s) f q (inr e) = Entry-Sound w l s f q e

  Sound-IsPartial :
      (w : World) (p : Ptr (SensorFactory Table)) (l : List (CString × Ptr SensorConstructor))
      → mem p.addr w.live ≡ true
      → items p.val.ctor_ht ≡ l
      → Sound w l
      → ((f : CreateFn) → has_key (type_name f) l ≡ false → Denied w0 w)
      → IsPartial w p
  Sound-IsPartial w p l h e s c = record {
    live_self = h;
    sound = λ f q is.
        Entry-Sound w l s f q
          (subst (Entry (type_name f) q) e (find-Entry p.val.ctor_ht (type_name f) q is));
    complete = λ f is. c f (
        sym (is_some-find p.val.ctor_ht (type_name f) ∙ ap (has_key (type_name f)) e)
        ∙ ap is_some is);
  }

  -- `sensor_factory_create` fails where an allocation is refused, or makes a factory with some of its
  -- constructors.
  pub data TriesFactory (w : World) : Run (Option (Ptr (SensorFactory Table))) → Type 0 where
    refused_factory : {w' : World} → Grows w w' → Denied w0 w' → TriesFactory w (some (none, w'))
    made_factory :
        {w' : World} {p : Ptr (SensorFactory Table)}
        → Grows w w'
        → IsPartial w' p
        → TriesFactory w (some (some p, w'))

  has_both :
      (f : CreateFn) (a b : Ptr SensorConstructor)
      → has_key (type_name f) ((temperature, a) ∷ (level, b) ∷ []) ≡ true
  has_both temp_create a b = refl
  has_both level_create a b = refl

  pub factory_create-Tries : (w : World) → Grows w0 w → TriesFactory w (sensor_factory_create H w)
  unfolding sensor_factory_create
  factory_create-Tries w g =
      let w1 : World = record w { next = w.next + 1; live = w.next ∷ w.live } in
      let w2 : World = record w1 { next = w1.next + 1; live = w1.next ∷ w1.live } in
      let w3 : World = record w2 { next = w2.next + 1; live = w2.next ∷ w2.live } in
      let g1 = Grows-granted w w.out in
      let g2 = Grows-trans g1 (Grows-granted w1 w.out) in
      let one = ctor (w.next + 1) temperature temp_create in
      let other = ctor (w.next + 1 + 1) level level_create in
      let with_table : Table → Ptr (SensorFactory Table) =
        λ t. record { addr = w.next; val = record { ctor_ht = t } } in
      elim (Bool-cases (w.oom w.next)) [
        | inl o ↦ rw o (refused_factory (Grows-denied w) (Denied-next w0 w g o))
        | inr o ↦ elim (Bool-cases (w.oom (w.next + 1))) [
          | inl p ↦
              rw (o, p)
                (made_factory {p = with_table null} (Grows-trans g1 (Grows-denied w1)) (
                  Sound-IsPartial _ _ [] (ground arith) items-null tt
                    (λ f e. Denied-next w0 w1 (Grows-trans g g1) p)))
          | inr p ↦ elim (Bool-cases (w.oom (w.next + 1 + 1))) [
            | inl q ↦
                rw (o, p, q)
                  (made_factory {p = with_table (add_keyptr null temperature one.1)}
                    (Grows-trans g2 (Grows-denied w2))
                    (Sound-IsPartial _ _ (one ∷ []) (ground arith) (simp (items-add, items-null))
                      ((temp_create, refl, refl, ground arith), tt)
                      (λ f e. Denied-next w0 w2 (Grows-trans g g2) q)))
            | inr q ↦
                rw (o, p, q)
                  (made_factory
                    {p = with_table (add_keyptr (add_keyptr null temperature one.1) level other.1)}
                    (Grows-trans g2 (Grows-granted w2 w.out))
                    (Sound-IsPartial _ _ (one ∷ other ∷ []) (ground arith)
                      (simp (items-add, items-null))
                      (
                        (temp_create, refl, refl, ground arith),
                        ((level_create, refl, refl, ground arith), tt),
                      )
                      (λ f e. absurd (ground (arith, has_both f one.1 other.1, e)))))
          ]
        ]
      ]
