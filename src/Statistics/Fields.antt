-- ===== src/Statistics/Fields.antt =====
-- Which fields the JSON of `serializeWebrtcStats` of src/Serialization.cpp has, and with which values.
use libcaffeine.Base.{
  map, Bool, true, false, Bool-cases, if◌then◌else◌, if_true, if_false, Option, none, some, List,
  [], ◌∷◌, ◌≡◌, refl, sym, ap, ◌∙◌, inl, inr,
}
use libcaffeine.Base.Bytes.{Bytes, bytes_eq, bytes_eq_sound}
use libcaffeine.Statistics.{
  StatsValueName, is_whitelisted_report_type, is_whitelisted_stat, Format, Content, bool_val,
  float_val, id_val, int_val, int64_val, static_string_val, string_val, Value, StatsReport,
  add_content, add_stat, add_stats, header, serialize_reports,
}

-- Documented behaviour of the assignment to a key of an object: the key then has the value, and the
-- other keys have what they had.
pub record Assigns (format : Format) : Type 0 where
  pub makes : (fields : List (Bytes × format.Json)) → format.is_object (format.object fields) ≡ true
  pub stays :
      (name : Bytes) (value json : format.Json)
      → format.is_object json ≡ true
      → format.is_object (format.set name value json) ≡ true
  pub finds :
      (key : Bytes) (value json : format.Json)
      → format.is_object json ≡ true
      → format.find key (format.set key value json) ≡ some value
  pub keeps :
      (key name : Bytes) (value json : format.Json)
      → format.is_object json ≡ true
      → bytes_eq name key ≡ false
      → format.find key (format.set name value json) ≡ format.find key json

module _ (format : Format) where
  open format use {Json, of_bool, of_float, of_int, of_string, set, find, is_object}

  -- The value that is sent for a content, if one is.
  unfoldable pub sent : Content format → Option Json
  sent (bool_val b) = some (of_bool b)
  sent (float_val x) = some (of_float x)
  sent id_val = none
  sent (int_val n) = some (of_int n)
  sent (int64_val n) = some (of_int n)
  sent (static_string_val s) = some (of_string s)
  sent (string_val s) = some (of_string s)

  abbrev or_else : Option Json → Option Json → Option Json
  or_else none o = o
  or_else (some v) o = some v

  -- The last value among the listed statistics with this name, else the given one.
  unfoldable pub last_sent :
      Bytes → List (StatsValueName × Value format) → Option Json → Option Json
  unfolding sent
  last_sent key [] o = o
  last_sent key ((name, stat) ∷ entries) o = last_sent key entries (
      if is_whitelisted_stat name
      then (if bytes_eq stat.display_name key then or_else (sent stat.content) o else o)
      else o)

  assigned :
      Assigns format
      → (key name : Bytes) (value json : Json) → is_object json ≡ true
      → find key (set name value json) ≡ (if bytes_eq name key then some value else find key json)
  assigned laws key name value json o = elim (Bool-cases (bytes_eq name key)) [
    | inl e ↦
        ap (λ name. find key (set name value json)) (bytes_eq_sound name key e)
        ∙ laws.finds key value json o
        ∙ sym (if_true (bytes_eq name key) (some value) (find key json) e)
    | inr n ↦
        laws.keeps key name value json o n
        ∙ sym (if_false (bytes_eq name key) (some value) (find key json) n)
  ]

  same_either_way : (b : Bool) (o : Option Json) → o ≡ (if b then o else o)
  same_either_way true o = refl
  same_either_way false o = refl

  -- What a call of `add_stat` does to an object: it stays one, and has the value, if one is sent.
  pub Added : Json → Bytes → Content format → Json → Type 0
  Added json name c after =
      (is_object after ≡ true)
      × ((key : Bytes)
          → find key after
            ≡ (if bytes_eq name key then or_else (sent c) (find key json) else find key json))

  set-Added :
      Assigns format
      → (name : Bytes) (c : Content format) (value json : Json) → is_object json ≡ true
      → sent c ≡ some value
      → Added json name c (set name value json)
  unfolding Added
  set-Added laws name c value json o e = (
    laws.stays name value json o,
    λ key.
        assigned laws key name value json o
        ∙ ap (λ v. if bytes_eq name key then or_else v (find key json) else find key json) (sym e),
  )

  add_content-Added :
      Assigns format
      → (name : Bytes) (c : Content format) (json : Json) → is_object json ≡ true
      → Added json name c (add_content format json name c)
  unfolding add_content sent Added
  add_content-Added laws name (bool_val b) json o =
      set-Added laws name (bool_val b) (of_bool b) json o refl
  add_content-Added laws name (float_val x) json o =
      set-Added laws name (float_val x) (of_float x) json o refl
  add_content-Added laws name id_val json o =
      (o, λ key. same_either_way (bytes_eq name key) (find key json))
  add_content-Added laws name (int_val n) json o =
      set-Added laws name (int_val n) (of_int n) json o refl
  add_content-Added laws name (int64_val n) json o =
      set-Added laws name (int64_val n) (of_int n) json o refl
  add_content-Added laws name (static_string_val s) json o =
      set-Added laws name (static_string_val s) (of_string s) json o refl
  add_content-Added laws name (string_val s) json o =
      set-Added laws name (string_val s) (of_string s) json o refl

  either :
      (key : Bytes) (b : Bool) (name : Bytes) (c : Content format) (json other : Json)
      → is_object json ≡ true
      → Added json name c other
      → (is_object (if b then other else json) ≡ true)
        × (find key (if b then other else json) ≡ (
            if b
            then (if bytes_eq name key then or_else (sent c) (find key json) else find key json)
            else find key json))
  unfolding Added
  either key true name c json other o a = (a.0, a.1 key)
  either key false name c json other o a = (o, refl)

  find-add_stats :
      Assigns format
      → (entries : List (StatsValueName × Value format)) (key : Bytes) (json : Json)
      → is_object json ≡ true
      → find key (add_stats format json entries) ≡ last_sent key entries (find key json)
  unfolding add_stats last_sent add_stat
  find-add_stats laws [] key json o = refl
  find-add_stats laws ((name, stat) ∷ entries) key json o =
      find-add_stats laws entries key
        (if is_whitelisted_stat name then add_stat format json stat else json) added.0
      ∙ ap (last_sent key entries) added.1
    where
      added :
          (is_object (if is_whitelisted_stat name then add_stat format json stat else json) ≡ true)
          × (find key (if is_whitelisted_stat name then add_stat format json stat else json) ≡ (
              if is_whitelisted_stat name
              then (if bytes_eq stat.display_name key
                  then or_else (sent stat.content) (find key json)
                  else find key json)
              else find key json))
      added =
          either key (is_whitelisted_stat name) stat.display_name stat.content json
            (add_stat format json stat) o
            (add_content-Added laws stat.display_name stat.content json o)

  -- What a key has in the JSON of each report of a listed type.
  unfoldable pub fields : Bytes → List (StatsReport format) → List (Option Json)
  unfolding last_sent
  fields key [] = []
  fields key (report ∷ reports) =
      if is_whitelisted_report_type report.type
      then last_sent key report.values (find key (header format report)) ∷ fields key reports
      else fields key reports

  map-if :
      (key : Bytes) (b : Bool) (json : Json) (rest : List Json) (v : Option Json)
      (vs : List (Option Json))
      → find key json ≡ v
      → map (find key) rest ≡ vs
      → map (find key) (if b then json ∷ rest else rest) ≡ (if b then v ∷ vs else vs)
  map-if key true json rest v vs e es = ap (λ v. v ∷ map (find key) rest) e ∙ ap (◌∷◌ v) es
  map-if key false json rest v vs e es = es

  -- By the documented behaviour of an assignment to a key, each report of a listed type becomes an object
  -- of its own, in the order of the reports, in which each key has the last value that is sent for a
  -- listed statistic of this name, else what the object has from its time and its type.
  pub serialize_reports-fields :
      Assigns format
      → (key : Bytes) (reports : List (StatsReport format))
      → map (find key) (serialize_reports format reports) ≡ fields key reports
  unfolding serialize_reports fields header
  serialize_reports-fields laws key [] = refl
  serialize_reports-fields laws key (report ∷ reports) =
      map-if key (is_whitelisted_report_type report.type)
        (add_stats format (header format report) report.values) _ _ _
        (find-add_stats laws report.values key (header format report) (laws.makes _))
        (serialize_reports-fields laws key reports)
