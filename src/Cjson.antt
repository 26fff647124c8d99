-- ===== src/Cjson.antt =====
-- What the programs use of the library cJSON. A NULL handle is `none`.
use ie0417_dev_b.Base.{ℕ, ◌≡◌, Option, none, List, CString}

-- `parse` is `cJSON_Parse` on a block that holds these bytes; it is `none` where the library reads on
-- behind the end of the block, and `some none` where it answers NULL.
pub record Cjson : Type 1 where
  pub Json : Type 0
  pub parse : List ℕ → Option (Option Json)
  pub get_object_item : Option Json → CString → Option Json
  pub get_array_size : Json → ℕ
  pub get_array_item : Json → ℕ → Option Json
  pub get_string_value : Json → Option CString
  pub get_object_item-null : (key : CString) → get_object_item none key ≡ none
