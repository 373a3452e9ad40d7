-- ===== src/Events.antt =====
-- The event enumerations of the ports, with the number of each event on the wire between threads.
use base_platform_zephyr_ble.Prelude.{ℕ}

-- src/app/port.hpp
pub data AppEvent : Type 0 where
  invalid services_ready services_failed network_joined network_join_failed : AppEvent
  dispatch_started dispatch_finished soft_error hard_error retry_timeout : AppEvent

abbrev pub app_event_id : AppEvent → ℕ
app_event_id invalid = 0
app_event_id services_ready = 1
app_event_id services_failed = 2
app_event_id network_joined = 3
app_event_id network_join_failed = 4
app_event_id dispatch_started = 5
app_event_id dispatch_finished = 6
app_event_id soft_error = 7
app_event_id hard_error = 8
app_event_id retry_timeout = 9

-- src/svc/acquisition/port.hpp
pub data AcquisitionEvent : Type 0 where
  invalid start_scan stop_scan adv_report_available : AcquisitionEvent

abbrev pub acquisition_event_id : AcquisitionEvent → ℕ
acquisition_event_id invalid = 0
acquisition_event_id start_scan = 1
acquisition_event_id stop_scan = 2
acquisition_event_id adv_report_available = 3

-- src/svc/comms/port.hpp
pub data CommsEvent : Type 0 where
  invalid join_network dispatch_due dispatch_now start_dispatch stop_dispatch : CommsEvent

abbrev pub comms_event_id : CommsEvent → ℕ
comms_event_id invalid = 0
comms_event_id join_network = 1
comms_event_id dispatch_due = 2
comms_event_id dispatch_now = 3
comms_event_id start_dispatch = 4
comms_event_id stop_dispatch = 5
