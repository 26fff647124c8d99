-- ===== src/SensorCommands/Manager/Sample.antt =====
-- A configuration file with two sensors, and a small JSON library that reads it.
use ie0417_dev_b.Base.{
  ℕ, zero, suc, ◌+◌, refl, false, Option, none, some, List, [], ◌∷◌, pos, CString, bytes, bytes_eq,
  arith, length, if◌then◌else◌,
}
use ie0417_dev_b.Process.{World}
use ie0417_dev_b.Uthash.{Uthash, association_list}
use ie0417_dev_b.Cjson.{Cjson}
use ie0417_dev_b.Files.{File, Files, junk_bytes}
use ie0417_dev_b.SensorCommands.Factory.{SensorConstructor}
use ie0417_dev_b.SensorCommands.Manager.{SensorHashEntry, SensorManagerConfig}
use ie0417_dev_b.SensorCommands.Manager.Load.{temp, lev, Config, Describes, NoOom}
use ie0417_dev_b.SensorCommands.Manager.Create.{IsConfig, IsJson}

-- Objects and arrays are chains of their fields and items.
pub data Json : Type 0 where
  string : CString → Json
  close : Json
  field : (key : CString) (value rest : Json) → Json
  item : (value rest : Json) → Json

abbrev pub field_of : Json → CString → Option Json
field_of (field k v r) key = if bytes_eq k key then some v else field_of r key
field_of j key = none

abbrev pub item_of : Json → ℕ → Option Json
item_of (item v r) zero = some v
item_of (item v r) (suc i) = item_of r i
item_of j i = none

abbrev pub size_of : Json → ℕ
size_of (item v r) = size_of r + 1
size_of j = 0

abbrev pub string_of : Json → Option CString
string_of (string s) = some s
string_of j = none

abbrev pub object_item : Option Json → CString → Option Json
object_item none key = none
object_item (some j) key = field_of j key

abbrev pub sensor : CString → CString → Json
sensor type name = field (bytes "name") (string name) (field (bytes "type") (string type) close)

abbrev pub sensors : Json
sensors =
    item (sensor (bytes "temperature") (bytes "temp-eie101"))
      (item (sensor (bytes "level") (bytes "level-eie301")) close)

abbrev pub document : Json
document = field (bytes "sensors") sensors close

-- The parser knows one text, and stops at its end.
abbrev pub source : CString
source = bytes "{\"sensors\":[temperature temp-eie101,level level-eie301]}"

abbrev pub parse_source : List ℕ → Option (Option Json)
parse_source s = some (if bytes_eq s source then some document else none)

abbrev pub J : Cjson
J = record {
  Json = Json;
  parse = parse_source;
  get_object_item = object_item;
  get_array_size = size_of;
  get_array_item = item_of;
  get_string_value = string_of;
  get_object_item-null = λ key. refl;
}

abbrev pub F : Uthash SensorConstructor
F = association_list SensorConstructor

abbrev pub H : Uthash SensorHashEntry
H = association_list SensorHashEntry

abbrev pub file : File
file = record {
  content = source;
  seek_end_ret = pos 0;
  seek_set_ret = pos 0;
  read_ret = length source;
}

-- Every name opens the file.
abbrev pub files : Files
files name = some file

abbrev pub config : SensorManagerConfig
config = record { cfg_filename = bytes "sensors_cfg.json" }

abbrev pub listed : Config
listed = (temp, bytes "temp-eie101") ∷ (lev, bytes "level-eie301") ∷ []

abbrev pub world : World
world = record { next = 1; live = []; oom = λ n. false; junk = λ n i. 0; out = []; open_files = 0 }

pub has_memory : NoOom world
has_memory n = refl

pub described : Describes J sensors 0 listed
described = (
  record {
    type_item = string (bytes "temperature");
    name_item = string (bytes "temp-eie101");
    has_type = refl;
    has_name = refl;
    type_string = refl;
    name_string = refl;
  },
  (
    record {
      type_item = string (bytes "level");
      name_item = string (bytes "level-eie301");
      has_type = refl;
      has_name = refl;
      type_string = refl;
      name_string = refl;
    },
    tt,
  ),
)

pub json_file : IsJson J files config.cfg_filename (world.junk 2) document
unfolding junk_bytes
json_file = record {
  file = file;
  exists = refl;
  seek_end = refl;
  seek_set = refl;
  bytes_read = ground arith;
  parses = refl;
}

abbrev pub is_config : IsConfig J files config.cfg_filename (world.junk 2) listed
is_config = record {
  json = document;
  document = json_file;
  sensors = sensors;
  has_sensors = refl;
  size = refl;
  described = described;
}
