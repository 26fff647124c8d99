-- ===== src/EieDevice/Program.antt =====
-- src/proyecto/eie_device/tools/eie_device/main.c: the program that starts a device and waits for a key.
use ie0417_dev_b.Base.{
  zero, suc, negsuc, ℕ, Bool, false, ◌||◌, Option, none, some, List, [], ◌∷◌, ◌++◌, ℤ, pos, CString,
  bytes, ◌==◌, if◌then◌else◌,
}
use ie0417_dev_b.Process.{M, pure, fault, ◌>>=◌, ◌>>◌, if_null, malloc, str, print, text}
use ie0417_dev_b.Uthash.{Uthash}
use ie0417_dev_b.Options.{GetoptAnswer, minus_einval, parse_options}
use ie0417_dev_b.EieDevice.{
  Mqtt, CjsonCase, DeviceHashEntry, info_create, eie_device_create, eie_device_start,
  eie_device_destroy,
}

-- What the program uses of cJSON to build a document. An item that is added to another stays shared
-- with it, so the items stand in a store.
pub record CjsonBuild : Type 1 where
  pub Item : Type 0
  pub Store : Type 0
  pub create_object : Store → Item × Store
  pub create_array : Store → Item × Store
  pub create_string : CString → Store → Item × Store
  pub add_item_to_object : (object : Item) → CString → (item : Item) → Store → Store
  pub add_item_to_array : (array item : Item) → Store → Store
  pub print : Item → Store → Option CString
  pub delete : Item → Store → Store

unfoldable pub test_callback : (name features : CString) → M (Unit {0})
unfolding print
test_callback name features = print (text (bytes "test success\n"))

module _ (D : CjsonBuild) where
  open D use {
    Item, Store, create_object, create_array, create_string, add_item_to_object, add_item_to_array,
  }

  -- The document of the configuration, printed and deleted.
  unfoldable pub test_json : Store → Option CString × Store
  test_json s0 =
      let (config, s1) = create_object s0 in
      let (address, s2) = create_string (bytes "tcp://mosquitto:1883") s1 in
      let (id, s3) = create_string (bytes "mosquitto") s2 in
      let (name, s4) = create_string (bytes "com.eie.proyecto:testDevice:1.0") s3 in
      let (feature_id, s5) = create_object s4 in
      let (definition, s6) = create_array s5 in
      let (properties, s7) = create_object s6 in
      let (configuration, s8) = create_object s7 in
      let (status, s9) = create_object s8 in
      let t1 = add_item_to_object config (bytes "testFeature") feature_id s9 in
      let t2 = add_item_to_object feature_id (bytes "definition") definition t1 in
      let t3 = add_item_to_object feature_id (bytes "properties") properties t2 in
      let t4 = add_item_to_object properties (bytes "configuration") configuration t3 in
      let t5 = add_item_to_object properties (bytes "status") status t4 in
      let t6 = add_item_to_array definition name t5 in
      let t7 = add_item_to_object configuration (bytes "address") address t6 in
      let t8 = add_item_to_object configuration (bytes "id") id t7 in
      (D.print config t8, D.delete config t8)

-- `getchar` on what is left of the input; at its end it answers EOF.
unfoldable pub getchar : List ℕ → ℤ × List ℕ
getchar [] = (negsuc 0, [])
getchar (c ∷ l) = (pos c, l)

-- 'Q' and 'q'.
abbrev is_quit : ℤ → Bool
is_quit (pos c) = c == 81 || c == 113
is_quit (negsuc c) = false

-- The loop over `getchar`, for at most so many rounds: what is left of the input when it ends, and
-- `none` where it would go on.
unfoldable pub wait_for_quit : (rounds : ℕ) → List ℕ → Option (List ℕ)
unfolding getchar
wait_for_quit zero input = none
wait_for_quit (suc n) input =
    let (ch, rest) = getchar input in
    let later = wait_for_quit n rest in if is_quit ch then some rest else later

module _ (H : Uthash DeviceHashEntry) (B : Mqtt) (J : CjsonCase) (D : CjsonBuild) where
  open B use {Net}
  open D use {Store}

  -- From the allocation of the name on. `callback` is the address of `testCallback`, and `uninit` the
  -- result of `eie_device_destroy`. The result is `none` where the function is still waiting for a key
  -- after so many rounds.
  unfoldable pub start_and_wait :
      (callback : ℕ) (uninit : ℤ)
      → (rounds : ℕ) → (input : List ℕ) → (json : CString) → Net
      → M (Option Net)
  unfolding malloc print info_create eie_device_create eie_device_start wait_for_quit
      eie_device_destroy
  start_and_wait callback uninit rounds input json net = do
    name_char ← malloc
    info ← info_create (bytes "testCallback") (some callback)
    (device, net1) ←
        eie_device_create H B J (record { name = bytes "testFeature"; config_json = json }) info net
    (started, net2) ← eie_device_start H B device net1
    print (text (bytes "Press Q<Enter> to quit\n"))
    if_null (wait_for_quit rounds input) (pure none) λ rest. do
      print (text (bytes "Exiting execution\n"))
      if_null device fault
          λ d. do (ret, net3) ← eie_device_destroy H B d uninit net2; pure (some net3)

  unfoldable pub startup_test :
      (callback : ℕ) (uninit : ℤ) → (rounds : ℕ) → (input : List ℕ) → Store → Net → M (Option Net)
  unfolding malloc str print test_json start_and_wait
  startup_test callback uninit rounds input store net = do
    cfg ← malloc
    let (printed, store') = test_json D store
    if_null cfg fault λ c. do
      json ← str printed
      print (text (bytes "Feature sent:\n " ++ (json ++ bytes "\n")))
      start_and_wait callback uninit rounds input json net

  -- The exit code, unless the program is still waiting.
  unfoldable pub main :
      List GetoptAnswer
      → (cfg_filename : List ℕ) → (callback : ℕ) (uninit : ℤ) → (rounds : ℕ) → (input : List ℕ)
      → Store
      → Net
      → M (Option (ℤ × Net))
  unfolding parse_options startup_test
  main options cfg_filename callback uninit rounds input store net =
      if_null (parse_options options cfg_filename) (pure (some (minus_einval, net))) λ c. do
        ended ← startup_test callback uninit rounds input store net
        if_null ended (pure none) λ net'. pure (some (pos 0, net'))
