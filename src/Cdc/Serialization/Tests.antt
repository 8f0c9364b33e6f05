-- ===== src/Cdc/Serialization/Tests.antt =====
-- A batch of two tables in files, and its theorem there.
use incremental_cdc_data_pla.Base.{
  String, ◌≡◌, refl, Option, none, some, List, [], ◌∷◌, map, keep, All, ◌==◌, eq_iff, strip, insert,
  if◌then◌else◌,
}
use Prim.Native.String.{◌++◌ as concat}
use incremental_cdc_data_pla.Cdc.{Value, text, dictionary, no_fields, field, get, CdcEvent, to_dict}
use incremental_cdc_data_pla.Cdc.Event.{Casts}
use incremental_cdc_data_pla.Cdc.Serialization.{
  Json, serialize_event_to_json, group_key, in_group, group_keys, write_group, write_groups,
  written_paths, write_cdc_batch_jsonl, events, read_cdc_batch_jsonl,
}
use incremental_cdc_data_pla.Cdc.Serialization.RoundTrip.{canonical, ReadsBack, sort_fields}
use incremental_cdc_data_pla.Cdc.Serialization.Groups.{read-write_cdc_batch}
use incremental_cdc_data_pla.Cdc.Tests.{created}

abbrev other : CdcEvent
other = record created {
  event_id = "e4";
  table_name = "payments";
  business_key = field "payment_id" (text "P") (field "note" (text "n") no_fields);
}

-- A text for each of the two events.
name_of : Value → String
name_of (text s) = s
name_of v = ""

loaded : String → Option Value
unfolding sort_fields to_dict
loaded s =
    if s == "e1"
    then some (dictionary (sort_fields (to_dict created)))
    else if s == "e4"
    then some (dictionary (sort_fields (to_dict other)))
    else none

abbrev json : Json
json = record { dumps = λ d. name_of (get "event_id" d); loads = loaded }

abbrev casts : Casts
casts = record { str = λ v. ""; int = λ v. none; dict = λ v. none }

abbrev path : String → String → String
path b t = concat b (concat "/" t)

abbrev batch : List CdcEvent
batch =
    created
    ∷ other
    ∷ record created { event_id = "e1"; sequence_number = created.sequence_number }
    ∷ []

files_test :
    (write_cdc_batch_jsonl json path batch []).1
    ≡ ("b/accounts", "e1" ∷ "e1" ∷ []) ∷ ("b/payments", "e4" ∷ []) ∷ []
unfolding name_of get to_dict serialize_event_to_json group_keys write_group write_groups
    written_paths write_cdc_batch_jsonl insert
files_test = refl

created_ReadsBack : ReadsBack json created
unfolding name_of get to_dict loaded strip
created_ReadsBack = record { no_space = refl; filled = refl; loaded = refl }

other_ReadsBack : ReadsBack json other
unfolding name_of get to_dict loaded strip
other_ReadsBack = record { no_space = refl; filled = refl; loaded = refl }

read-write_cdc_batch_example :
    All
      (λ e.
        read_cdc_batch_jsonl json casts
          (path e.batch_id e.table_name)
          (write_cdc_batch_jsonl json path batch []).1
        ≡ events (map canonical (keep (in_group (group_key e)) batch)))
      batch
read-write_cdc_batch_example =
    read-write_cdc_batch json casts path batch []
      (
        (
          (λ h. refl),
          ((λ h. absurd (cc ((eq_iff "b/payments" "b/accounts").1 h))), ((λ h. refl), tt)),
        ),
        (
          (
            (λ h. absurd (cc ((eq_iff "b/accounts" "b/payments").1 h))),
            ((λ h. refl), ((λ h. absurd (cc ((eq_iff "b/accounts" "b/payments").1 h))), tt)),
          ),
          (
            (
              (λ h. refl),
              ((λ h. absurd (cc ((eq_iff "b/payments" "b/accounts").1 h))), ((λ h. refl), tt)),
            ),
            tt,
          ),
        ),
      )
      (created_ReadsBack, (other_ReadsBack, (created_ReadsBack, tt)))
