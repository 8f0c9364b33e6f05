-- ===== src/Lakeflow/Config.antt =====
-- databricks/lakeflow/config.py: the configuration from the environment and from a Spark session.
use Prim.Native.String.{◌++◌ as concat}
use incremental_cdc_data_pla.Base.{String, ◌≡◌, Option, none, some, ◌==◌}
use incremental_cdc_data_pla.Cdc.{ℤ}
use incremental_cdc_data_pla.Lakeflow.{LakeflowConfig}

-- `os.environ`, and `int(s)` (`none`: a raise) and `s.lower()`.
pub record Environment : Type 0 where
  pub variable : String → Option String
  pub int : String → Option ℤ
  pub lower : String → String

-- `os.getenv(name, default)`
abbrev pub or_default : Option String → String → String
or_default none d = d
or_default (some s) d = s

-- A value of the session's `conf` for a key and a default; `none` is an exception.
abbrev pub Conf : Type 0
Conf = String → String → Option String

module _ (e : Environment) where
  abbrev pub getenv : String → String → String
  getenv name d = or_default (e.variable name) d

  abbrev pub volume : String → String → String → String
  volume catalog schema last =
      concat "/Volumes/" (concat catalog (concat "/" (concat schema (concat "/cdc_data/" last))))

  abbrev pub with_seconds :
      String → String → String → String → String → Option ℤ → Option LakeflowConfig
  with_seconds catalog schema snapshot cdc ignore none = none
  with_seconds catalog schema snapshot cdc ignore (some n) = some (record {
    catalog = catalog;
    schema = schema;
    snapshot_base_path = snapshot;
    normalized_cdc_base_path = cdc;
    tombstone_gc_threshold_seconds = n;
    ignore_null_updates = e.lower ignore == "true";
  })

  unfoldable pub from_env : Option LakeflowConfig
  from_env =
      let catalog = getenv "LAKEFLOW_CATALOG" "main" in
      let schema = getenv "LAKEFLOW_SCHEMA" "cdc_portfolio" in
      with_seconds catalog schema
        (getenv "LAKEFLOW_SNAPSHOT_PATH" (volume catalog schema "source_snapshot"))
        (getenv "LAKEFLOW_NORMALIZED_CDC_PATH" (volume catalog schema "normalized_cdc"))
        (getenv "LAKEFLOW_IGNORE_NULL_UPDATES" "false")
        (e.int (getenv "LAKEFLOW_TOMBSTONE_GC_SECONDS" "604800"))

  -- A lookup that raises gives the default.
  abbrev pub get_conf : Conf → String → String → String
  get_conf conf key d = or_default (conf key d) d

  unfoldable pub from_conf : Conf → Option LakeflowConfig
  from_conf conf =
      let catalog = get_conf conf "lakeflow.catalog" (getenv "LAKEFLOW_CATALOG" "main") in
      let schema = get_conf conf "lakeflow.schema" (getenv "LAKEFLOW_SCHEMA" "cdc_portfolio") in
      with_seconds catalog schema
        (get_conf conf "lakeflow.snapshot_base_path"
          (getenv "LAKEFLOW_SNAPSHOT_PATH" (volume catalog schema "source_snapshot")))
        (get_conf conf "lakeflow.normalized_cdc_base_path"
          (getenv "LAKEFLOW_NORMALIZED_CDC_PATH" (volume catalog schema "normalized_cdc")))
        (get_conf conf "lakeflow.ignore_null_updates"
          (getenv "LAKEFLOW_IGNORE_NULL_UPDATES" "false"))
        (e.int (
          get_conf conf "lakeflow.tombstone_gc_seconds"
            (getenv "LAKEFLOW_TOMBSTONE_GC_SECONDS" "604800")))

  -- A session without a `conf` falls back on the environment.
  unfoldable pub from_spark_conf : Option Conf → Option LakeflowConfig
  unfolding from_env from_conf
  from_spark_conf none = from_env
  from_spark_conf (some conf) = from_conf conf

  -- A session that sets nothing, or raises at each lookup, gives the environment's configuration.
  pub from_spark_conf-unset :
      (conf : Conf)
      → ((key d : String) → or_default (conf key d) d ≡ d)
      → from_spark_conf (some conf) ≡ from_env
  unfolding from_spark_conf from_env from_conf
  from_spark_conf-unset conf unset = simp unset
