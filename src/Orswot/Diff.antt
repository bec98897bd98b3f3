-- ===== src/Orswot/Diff.antt =====
-- `OrSWotSet::diff` (datacake-crdt/src/orswot.rs).
use datacake.Base.{not, none, some, [], ◌∷◌, ◌++◌, ltb, if◌then◌else◌}
use datacake.Base.Ord.{nat_ord}
use datacake.Base.Assoc.{get}
use datacake.Timestamp.Fields.{HlcTimestamp}
use datacake.Orswot.Versions.{is_ts_before_last_observed_event}
use datacake.Orswot.Set.{Key, StateChanges, OrSWotSet}

unfoldable pub check_self_then_insert_to :
    OrSWotSet → Key → HlcTimestamp → StateChanges → StateChanges
check_self_then_insert_to s key ts values = elim (get key s.entries) [
  | some existing_insert ↦ if ltb existing_insert ts then values ++ (key, ts) ∷ [] else values
  | none ↦ elim (get key s.dead) [
    | some existing_delete ↦ if ltb existing_delete ts then values ++ (key, ts) ∷ [] else values
    | none ↦
        if not (is_ts_before_last_observed_event ts s.versions)
        then values ++ (key, ts) ∷ []
        else values
  ]
]

unfoldable pub check_all : OrSWotSet → StateChanges → StateChanges → StateChanges
unfolding check_self_then_insert_to
check_all s [] values = values
check_all s ((key, ts) ∷ rest) values = check_all s rest (check_self_then_insert_to s key ts values)

unfoldable pub diff : OrSWotSet → OrSWotSet → StateChanges × StateChanges
unfolding check_all
diff s other = (check_all s other.entries [], check_all s other.dead [])
