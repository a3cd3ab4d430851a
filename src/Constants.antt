-- ===== src/Constants.antt =====
-- cpp/webmanager_constants.hh: the limits and the periods of the web manager, in microseconds.
use espidf_component_webmana.Prelude.{ℕ, ◌*◌}
use espidf_component_webmana.Prelude.Word.{int64_max}

abbrev pub far_future : ℕ
far_future = int64_max

abbrev pub reconnect_timeout_us : ℕ
reconnect_timeout_us = 8_000_000

abbrev pub shutdown_ap_timeout_us : ℕ
shutdown_ap_timeout_us = 30_000_000

abbrev pub common_timeout_us : ℕ
common_timeout_us = 30_000_000

abbrev pub max_sessions : ℕ
max_sessions = 8

abbrev pub session_max_age_us : ℕ
session_max_age_us = 30 * 24 * 3600 * 1000000

-- The states of webmanager_workingstate.inc.
pub data WorkingState : Type 0 where
  ap_started keep_connection : WorkingState
