-- ===== src/EieDevice/Tests.antt =====
-- A device with a broker that accepts everything, and a configuration that a small JSON library reads.
use ie0417_dev_b.Base.{
  ◌⊎◌, ◌+◌, take, ℕ, zero, suc, ◌≤◌, ltb, Option, arith, ◌≡◌, refl, false, ◌||◌, none, some, List,
  [], ◌∷◌, ◌++◌, pos, CString, bytes, length, leb, if◌then◌else◌,
}
use ie0417_dev_b.Process.{World, Ptr, mem}
use ie0417_dev_b.EieDevice.Messages.{CjsonOwned, eie_device_msg_arrived_cb, msg_arrived_cb-none}
use ie0417_dev_b.EieDevice.Program.{CjsonBuild, test_json, startup_test}
use ie0417_dev_b.EieDevice.Keys.{HoldsQuit, NoQuit}
use ie0417_dev_b.EieDevice.Startup.{config, sent, connected, startup_test-runs}
use ie0417_dev_b.Uthash.{Uthash, association_list}
use ie0417_dev_b.EieDevice.{
  Mqtt, CjsonCase, FunctionInfo, DeviceHashEntry, EieDeviceConfig, Device, eie_device_create,
  eie_device_destroy,
}
use ie0417_dev_b.EieDevice.Calls.{
  IsConfig, device_at, with_device, device_create-connects, device_create_destroy,
}

abbrev H : Uthash DeviceHashEntry
H = association_list DeviceHashEntry

-- The connection is the list of the payloads that were published.
abbrev B : Mqtt
B = record {
  Net = List CString;
  Client = CString;
  create = λ address id net. (address, net);
  set_callbacks = λ c d net. (pos 0, net);
  connect = λ c k s net. (pos 0, net);
  subscribe = λ c t q net. (pos 0, net);
  disconnect = λ c t net. (pos 0, net);
  publish_message = λ c t payload q r net. (pos 0, net ++ payload ∷ []);
  destroy = λ c net. net;
}

-- Every item leads to itself, and its string is the document.
abbrev J : CjsonCase
J = record {
  Json = CString;
  parse = λ s. some s;
  get_object_item_case_sensitive = λ o k. o;
  value_string = λ s. some s;
  print_json = λ s. some s;
}

abbrev document : CString
document = bytes "tcp://broker:1883"

abbrev cfg : EieDeviceConfig
cfg = record { name = bytes "device"; config_json = document }

abbrev is_config : IsConfig J cfg document document
is_config = record {
  json = document;
  address_item = document;
  id_item = document;
  display = document;
  parses = refl;
  has_address = refl;
  has_id = refl;
  address_string = refl;
  id_string = refl;
  prints = refl;
}

abbrev callback : Ptr FunctionInfo
callback = record { addr = 1; val = record { name = bytes "test_json"; execute = 1 } }

abbrev world : World
world = record {
  next = 2;
  live = 1 ∷ [];
  oom = λ n. false;
  junk = λ n i. 0;
  out = [];
  open_files = 0;
}

device_create-connects_example : eie_device_create H B J cfg (some callback) [] world ≡ (
    if leb 60 (length document) || leb 60 (length document)
    then none
    else some (
      (
        some (device_at H B J 2 cfg callback (B.create document document []).0),
        (B.set_callbacks (B.create document document []).0 2 (B.create document document []).1).1,
      ),
      with_device H B J world document,
    ))
device_create-connects_example =
    device_create-connects H B J world cfg callback [] document document (λ n. refl) refl is_config

device_create_destroy_example :
    (d : Ptr (Device H B)) × (net1 : B.Net) × (w1 : World) × (w2 : World) × (eie_device_create H B J
        cfg
        (some callback)
        []
        world
      ≡ some ((some d, net1), w1))
    × (eie_device_destroy H B d (pos 7) net1 w1
        ≡ some ((pos 7, B.destroy (B.create document document []).0 net1), w2))
    × (w2.live ≡ 6 ∷ 5 ∷ 4 ∷ 1 ∷ [])
device_create_destroy_example =
    device_create_destroy H B J world cfg callback [] document document (pos 7) (λ n. refl) refl
      is_config refl refl

abbrev device : Ptr (Device H B)
device = device_at H B J 2 cfg callback document

-- A document of three items, each under the one before; freeing an item frees those under it.
abbrev below : ℕ → Option ℕ
below zero = some 1
below (suc zero) = some 2
below _ = none

abbrev without : ℕ → List ℕ → List ℕ
without j [] = []
without j (k ∷ l) = if ltb k j then k ∷ without j l else without j l

mem-without : (j k : ℕ) (l : List ℕ) → j ≤ k → mem k (without j l) ≡ false
mem-without j k [] h = refl
mem-without j k (i ∷ l) h = ground (arith, mem-without j k l h)

below-after : (j k : ℕ) → below j ≡ some k → j ≤ k
below-after zero k e = ground arith
below-after (suc zero) k e = ground arith
below-after (suc (suc j)) k e = absurd (ground arith)

abbrev O : CjsonOwned
O = record {
  Json = ℕ;
  Documents = List ℕ;
  parse = λ s d. (some 0, 0 ∷ 1 ∷ 2 ∷ []);
  get_object_item_case_sensitive = λ d o k. elim o [ none ↦ none | some j ↦ below j ];
  value_string = λ d j. some document;
  is_live = λ d j. mem j d;
  delete = λ d j. without j d;
  get-null = λ d k. refl;
  delete-child = λ d j c k e. mem-without j c d (below-after j c e);
}

msg_arrived_cb-none_example :
    eie_device_msg_arrived_cb H B O
      (λ f topic features. features)
      (pos 7)
      device
      (bytes "test_json")
      document
      []
      []
      (with_device H B J world document)
    ≡ none
msg_arrived_cb-none_example =
    msg_arrived_cb-none H B O (λ f topic features. features) (pos 7) device (bytes "test_json")
      document [] [] (with_device H B J world document)

-- Every item is the document.
abbrev D : CjsonBuild
D = record {
  Item = Unit;
  Store = Unit;
  create_object = λ s. (tt, tt);
  create_array = λ s. (tt, tt);
  create_string = λ t s. (tt, tt);
  add_item_to_object = λ o k i s. tt;
  add_item_to_array = λ a i s. tt;
  print = λ i s. some document;
  delete = λ i s. tt;
}

abbrev is_feature : IsConfig J (config H B J D document) document document
is_feature = record {
  json = document;
  address_item = document;
  id_item = document;
  display = document;
  parses = refl;
  has_address = refl;
  has_id = refl;
  address_string = refl;
  id_string = refl;
  prints = refl;
}

-- The keys a and q.
abbrev keys : List ℕ
keys = 97 ∷ 113 ∷ []

startup_test-runs_example :
    (HoldsQuit (take 2 keys)
      × (w' : World) × (startup_test H B J D 5 (pos 7) 2 keys tt [] world
          ≡ some (
            some (
                B.destroy
                  (B.create document document []).0
                  (connected H B J D (sent H B J D world document) [] document document document)),
            w',
          ))
      × (length w'.live ≡ 7 + 1))
    ⊎ (NoQuit (take 2 keys)
        × (w' : World) × (startup_test H B J D 5 (pos 7) 2 keys tt [] world ≡ some (none, w')))
unfolding test_json
startup_test-runs_example =
    startup_test-runs H B J D 5 (pos 7) 2 keys tt [] world document document document (λ n. refl)
      refl is_feature refl refl
