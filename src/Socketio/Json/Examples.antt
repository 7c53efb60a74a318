-- ===== src/Socketio/Json/Examples.antt =====
-- A text on which the theorem about checkJSONDepth is applied.
use hwarr.Base.{◌≤◌, ◌≡◌, ◌↔◌, GoString, codes, none, true}
use hwarr.Socketio.Json.{
  JsonReader, token, open_delim, close_delim, eof, check_json_depth, ends_well, peak,
  max_json_depth, check_json_depth-peak,
}

abbrev pair_reader : JsonReader
pair_reader = record {
  valid = λ s. true;
  tokens = λ s. token open_delim (token open_delim (token close_delim (token close_delim eof)));
}

abbrev pair : GoString
pair = codes "[[]]"

check_json_depth-peak_example : (check_json_depth pair_reader pair ≡ none) ↔ (
    (ends_well (pair_reader.tokens pair) ≡ true)
    × (peak 0 (pair_reader.tokens pair) ≤ max_json_depth))
check_json_depth-peak_example = check_json_depth-peak pair_reader pair
