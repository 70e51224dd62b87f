-- ===== src/Tests/Reports.antt =====
-- The statistics and the observers at concrete inputs.
use libcaffeine.Base.{
  Bool, true, false, if◌then◌else◌, if_true, if_false, Option, none, some, List, [], ◌∷◌, map, ◌≡◌,
  refl,
}
use libcaffeine.Base.Int.{pos}
use libcaffeine.Base.Bytes.{Bytes, text, bytes_eq, bytes_eq_refl}
use libcaffeine.Peer.{failed, gathering, complete, IceCandidate}
use libcaffeine.Peer.Gathering.{
  Callback, ice_connection_change, ice_gathering_change, ice_candidate, completes, is_null,
  is_legal, has_completed, candidates_of, failures_of, observer, returned, run_callbacks,
  run_callbacks-observer,
}
use libcaffeine.Statistics.{
  ssrc, other_type, rtt, other_name, Format, int_val, id_val, string_val, StatsReport,
  serialize_reports,
}
use libcaffeine.Statistics.Fields.{Assigns, fields, serialize_reports-fields}

-- A JSON library that keeps the fields of an object in a chain, the last one first.
data Tree : Type 0 where
  leaf : Bytes → Tree
  bare : Tree
  field : Bytes → Tree → Tree → Tree

unfoldable has_fields : Tree → Bool
has_fields (leaf s) = false
has_fields bare = true
has_fields (field name value tree) = has_fields tree

unfoldable grow : List (Bytes × Tree) → Tree
grow [] = bare
grow ((name, value) ∷ rest) = field name value (grow rest)

unfoldable look_up : Bytes → Tree → Option Tree
look_up key (leaf s) = none
look_up key bare = none
look_up key (field name value tree) = if bytes_eq name key then some value else look_up key tree

abbrev trees : Format
trees = record {
  Json = Tree;
  Float = Bytes;
  of_bool = λ b. leaf (text "bool");
  of_float = λ x. leaf x;
  of_int = λ n. leaf (text "int");
  of_string = λ s. leaf s;
  object = grow;
  array = λ items. bare;
  set = field;
  find = look_up;
  is_object = has_fields;
}

grow-has_fields : (rest : List (Bytes × Tree)) → has_fields (grow rest) ≡ true
unfolding grow has_fields
grow-has_fields [] = refl
grow-has_fields ((name, value) ∷ rest) = grow-has_fields rest

trees-Assigns : Assigns trees
unfolding has_fields look_up
trees-Assigns = record {
  makes = grow-has_fields;
  stays = λ name value tree o. o;
  finds = λ key value tree o. if_true (bytes_eq key key) _ _ (bytes_eq_refl key);
  keeps = λ key name value tree o n. if_false (bytes_eq name key) _ _ n;
}

abbrev reports : List (StatsReport trees)
reports =
    record {
      type = ssrc;
      timestamp = text "7";
      type_to_string = text "ssrc";
      values =
          (rtt, record { display_name = text "googRtt"; content = int_val (pos 20) })
          ∷ (other_name 3, record { display_name = text "secret"; content = string_val (text "s") })
          ∷ (rtt, record { display_name = text "id"; content = id_val })
          ∷ [];
    }
    ∷ record { type = other_type 1; timestamp = text "8"; type_to_string = text "x"; values = [] }
    ∷ []

serialize_reports-fields_example :
    map (look_up (text "googRtt")) (serialize_reports trees reports)
    ≡ fields trees (text "googRtt") reports
serialize_reports-fields_example =
    serialize_reports-fields trees trees-Assigns (text "googRtt") reports

abbrev candidate : IceCandidate
candidate = record { sdp = some (text "c"); sdp_mid = text "0"; sdp_m_line_index = pos 0 }

abbrev callbacks : List Callback
callbacks =
    ice_gathering_change gathering
    ∷ ice_candidate (some candidate)
    ∷ ice_candidate (some (record candidate { sdp = none }))
    ∷ ice_gathering_change complete
    ∷ ice_connection_change failed
    ∷ []

callbacks_legal : is_legal false callbacks ≡ true
unfolding is_legal completes is_null
callbacks_legal = refl

run_callbacks-observer_example :
    run_callbacks callbacks (observer false [] [])
    ≡ returned (
        observer
          (has_completed false callbacks)
          (candidates_of callbacks)
          (failures_of [] callbacks))
run_callbacks-observer_example = run_callbacks-observer callbacks callbacks_legal
