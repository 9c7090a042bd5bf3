-- ===== src/Config/Defaults/Complete.antt =====
-- What `applyConfigDefaults` of app/runtime_config.go leaves: what was missing is filled in, and what
-- was given stays.
use routing_slip_pattern.Common.Dict.{Dict}
