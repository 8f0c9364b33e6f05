-- ===== src/Cdf/Tests.antt =====
-- The consumer's checkpoints on a small state, and their theorems at concrete inputs.
use incremental_cdc_data_pla.Base.{
  find_where, update_where, String, ◌≡◌, refl, true, false, none, some, List, [], ◌∷◌, lookup,
  insert, sort_by, insert_sorted,
}
use incremental_cdc_data_pla.Cdf.Consume.{
  Change, Delta, Consumer, consume_table, read_changes, following, write_changes,
}
use incremental_cdc_data_pla.Cdf.Consume.All.{
  register_table, consume_tables, consume_all, replay_range,
}
use incremental_cdc_data_pla.Cdf.Consume.Order.{Consumed, consume_table_lem}
use incremental_cdc_data_pla.Cdf.Consume.Archive.{write_changes_replay}
use incremental_cdc_data_pla.Cdc.{pos, table_of}
use incremental_cdc_data_pla.Cdf.{
  Registration, State, get_source, new_registration, previous, register_source, advance_checkpoint,
  raise, invalid_range, source_not_found, list_sources,
}
use incremental_cdc_data_pla.Cdf.Checkpoints.{
  Reaches, here, next, checkpoint, IsLater, Reaches-IsLater,
}

-- Names what an operation computes through.
runs : Unit {0}
unfolding find_where update_where new_registration previous register_source advance_checkpoint
runs = tt

abbrev registered : State
registered = (register_source "accounts" "/delta/accounts" (pos 3) true "now" []).1

abbrev moved : State
moved = (advance_checkpoint "accounts" (pos 7) "later" registered).1

back_test :
    advance_checkpoint "accounts" (pos 1) "later" registered ≡ (raise invalid_range, registered)
unfolding runs
back_test = refl

abbrev registration : Registration
registration = record {
  source_table = "accounts";
  source_path = "/delta/accounts";
  cdf_start_version = pos 3;
  last_processed_version = pos 2;
  registered_at = "now";
  last_updated_at = "now";
}

way : Reaches registered moved
way = next here (checkpoint "accounts" (pos 7) "later")

Reaches-IsLater_example :
    (r' : Registration) × (get_source "accounts" moved ≡ some r') × IsLater registration r'
unfolding runs
Reaches-IsLater_example = Reaches-IsLater "accounts" registration way refl

-- A feed of two changes, whose identities are the texts of the rows.
abbrev delta : Delta String
delta = record {
  feed = λ path start end. some ("x" ∷ "y" ∷ []);
  version = λ t. some (pos 7);
  prepare = λ t pk rows.
      some
        (record { change_id = "x"; values = "x" } ∷ record { change_id = "y"; values = "y" } ∷ []);
}

abbrev consumer : Consumer
consumer = record { state = registered; archive = [] }

-- The hook fails after the archive was written: the changes are there, the checkpoint is not moved.
crash_test : (consume_table delta true "accounts" "later" none consumer).1.state ≡ registered
unfolding runs consume_table read_changes following write_changes table_of
crash_test = refl

consume_table_lem_example :
    Consumed "accounts" consumer (consume_table delta false "accounts" "later" none consumer)
consume_table_lem_example = consume_table_lem delta false "accounts" "later" none consumer

abbrev changes : List Change
changes = record { change_id = "x"; values = "x" } ∷ record { change_id = "y"; values = "y" } ∷ []

write_changes_replay_example :
    let (n, once) = write_changes "accounts" changes [] in
    let (m, twice) = write_changes "accounts" changes once in
    (m ≡ 0) × ((u : String) → lookup u twice ≡ lookup u once)
write_changes_replay_example = write_changes_replay "accounts" changes []

all_test :
    (consume_all delta "later" none consumer).1.state
    ≡ (consume_table delta false "accounts" "later" none consumer).1.state
unfolding runs consume_all consume_tables consume_table read_changes following write_changes
    table_of list_sources sort_by insert_sorted lookup insert
all_test = refl

replay_test :
    replay_range delta "/other" "accounts" (pos 3) (pos 5) registered ≡ some ("x" ∷ "y" ∷ [])
unfolding runs replay_range read_changes
replay_test = refl

absent_test : register_table none "accounts" true "now" [] ≡ (raise source_not_found, [])
unfolding register_table
absent_test = refl
