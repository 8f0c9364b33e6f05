-- ===== src/Cdc/Generator/Tests.antt =====
-- The scenarios of a small snapshot, and their theorem there.
use incremental_cdc_data_pla.Base.{◌≡◌, refl, some, All, map, arith}
use incremental_cdc_data_pla.Cdc.Validator.{replace_z, parse_iso_timestamp, validate_data}
use incremental_cdc_data_pla.Source.Calendar.{last_day}
use incremental_cdc_data_pla.Source.Generator.Tests.{
  runtime, random, random-IsRandom, config, calendar,
}
use incremental_cdc_data_pla.Cdc.Generator.{Scenarios, init_scenarios}
use incremental_cdc_data_pla.Cdc.Generator.Fixtures.{Batches, generate_all_batches}
use incremental_cdc_data_pla.Cdc.Generator.Valid.{IsClock, IsAccepted}
use incremental_cdc_data_pla.Cdc.Generator.Rejects.{verdict, rejections}
use incremental_cdc_data_pla.Cdc.Generator.Complete.{generate_all_batches_lem}
use incremental_cdc_data_pla.Cdc.Tests.{external}

clock : IsClock external.timestamps runtime
unfolding replace_z parse_iso_timestamp
clock = record { filled = λ t. refl; parses = λ t. refl }

generate_all_batches_lem_example :
    (g : Scenarios runtime) × (b : Batches runtime) × (init_scenarios runtime random config
      ≡ some g)
    × (generate_all_batches runtime external g ≡ some b)
    × All (IsAccepted external.timestamps) b.batch_001
    × All (IsAccepted external.timestamps) b.batch_002
    × (map (λ d. verdict (validate_data external.timestamps d)) b.batch_003_quarantine ≡ rejections)
unfolding calendar last_day
generate_all_batches_lem_example =
    generate_all_batches_lem external.timestamps runtime random config external calendar clock
      random-IsRandom (omega arith) refl refl (omega arith) (omega arith) (omega arith)
      (omega arith)
