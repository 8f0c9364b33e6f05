-- ===== src/Lakeflow/Tests.antt =====
-- The registration under the default configuration.
use incremental_cdc_data_pla.Base.{◌≡◌, refl, true, false, none, some, length}
use incremental_cdc_data_pla.Cdc.{pos, Table}
use incremental_cdc_data_pla.Lakeflow.{spec_of, LakeflowConfig}
use incremental_cdc_data_pla.Lakeflow.Config.{
  Environment, from_env, from_spark_conf, from_spark_conf-unset,
}
use incremental_cdc_data_pla.Lakeflow.Registration.{
  register_auto_cdc_flows_for_spec, register_lakeflow_table, register_lakeflow_pipeline,
}
use incremental_cdc_data_pla.Lakeflow.Registration.Wired.{
  nothing, is_wired, IsAligned, register_lakeflow_pipeline_lem,
}

abbrev environment : Environment
environment = record { variable = λ s. none; int = λ s. some (pos 604_800); lower = λ s. s }

abbrev default_config : LakeflowConfig
default_config = record {
  catalog = "main";
  schema = "cdc_portfolio";
  snapshot_base_path = "/Volumes/main/cdc_portfolio/cdc_data/source_snapshot";
  normalized_cdc_base_path = "/Volumes/main/cdc_portfolio/cdc_data/normalized_cdc";
  tombstone_gc_threshold_seconds = pos 604_800;
  ignore_null_updates = false;
}

from_env_test : from_env environment ≡ some default_config
unfolding from_env
from_env_test = refl

-- Five registrations for each table, and three more for the one with a history.
register_test : length (register_lakeflow_pipeline default_config) ≡ 23
unfolding register_lakeflow_pipeline register_lakeflow_table register_auto_cdc_flows_for_spec
    spec_of
register_test = refl

register_lakeflow_pipeline_lem_example :
    (is_wired nothing (register_lakeflow_pipeline default_config) ≡ true)
    × ((t : Table) → IsAligned default_config t)
register_lakeflow_pipeline_lem_example = register_lakeflow_pipeline_lem default_config

from_spark_conf-unset_example :
    from_spark_conf environment (some (λ k d. none)) ≡ from_env environment
from_spark_conf-unset_example = from_spark_conf-unset environment (λ k d. none) (λ k d. refl)
