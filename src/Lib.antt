-- ===== src/Lib.antt =====
-- A BLE concentrator for Zephyr: it hears the advertisements of sensor endpoints, keeps the latest
-- reading of each in a table, and sends what is new over an uplink. Paths are from the root of the
-- repository.
--
-- The parts, as active objects that post events to each other's ports:
--   * src/hal/ble hands each advertising report to src/svc/acquisition, which puts it in a pool in
--     the Bluetooth context and, on its own thread, drains the pool, parses each report and records
--     it by `upsert` in src/svc/device_table.
--   * src/svc/comms takes a `snapshot` of the table when a dispatch is due, packs it into
--     fragments, offers them to the transport of src/hal/link, and acknowledges by `mark_reported`
--     the records of those that were accepted.
--   * src/app is the lifecycle: join, listen, retry with a backoff, or give up.
--   * src/eda carries the events, and src/utils/fault latches a lost one.
--
-- The files:
--   * `Prelude` and its children: tests on numbers, lists, byte strings.
--   * `Config`: src/config.hpp, as a record of the build's numbers.
--   * `DeviceTable`: src/svc/device_table/subsystem.cpp. `Table` is s_entries with s_evicted_count;
--     the functions have the source's names, with the loops of claim_slot and snapshot as functions
--     of their own. Its children prove what they are named for: `Lookup` the table as a map from
--     addresses, `Claim` the slot of a new device, `Unique`, `Upsert`, `Snapshot`, `Delivery` the
--     acknowledgements, `Reported` the three together, `Heard` a device just heard.
--   * `Fault`: src/utils/fault.
--   * `Eda`: src/eda/port and src/eda/active_object over a message queue that is a parameter,
--     `MsgQueue`; `Eda.Machine` is src/eda/state_machine, `Eda.Timer` src/eda/timer.
--   * `Events`: the event enumerations. `Hal.Ble`, `Hal.Gpio`, `Hal.Led`: src/hal.
--   * `App`: src/app/state_machine. entry, exit and the handlers are by state, as in the source.
--   * `Wire`: little-endian fields. `Acquisition`: src/svc/acquisition, with its event switch in
--     `Acquisition.Service`.
--   * `Link`: the interface of src/hal/link/link.hpp. `Comms`: src/svc/comms.
--   * `Link.Socket`: src/hal/link/socket/socket_link.cpp over the socket calls, the interface
--     `Net`.
--   * `Link.Lora`: src/hal/link/lora/link_lora.cpp over the LoRaWAN stack, the interface `Radio`,
--     whose answers are functions of the calls that it has had. `Hex` reads the keys, `Channels`
--     builds the channel mask, `Downlinks` is about the copy of a downlink, `Order` about the order
--     of the calls, `Uplinks` about a dispatch of `Comms` over this transport, by way of
--     `Comms.Transport`, `Accepts` about the states that its sends lead to.
--   * `Link.Wifi`: src/hal/link/wifi/link_wifi.cpp. The events of the network stack that are
--     handled during a wait are a list; `Associate` and `Scan` say how the two waits end.
--     `Link.Tcp`: src/hal/link/tcp/link_tcp.cpp. `Link.Socket.Ipv4`: the address of the interface,
--     for both.
--   * `App.BringUp`: `App::initialize` of src/app/app.cpp, with its ends in `Outcome`.
--   * `Hal.Watchdog`: src/hal/watchdog and src/eda/idle_hook. `Hal.System`: src/hal/system.
--     `Hal.Threads`: the thread pool and the idle thread of src/hal/os/zephyr/os_zephyr.cpp.
--     `Hal.Kernel`: its wrappers of the kernel's queue and timer, where the queue is shown to be a
--     `MsgQueue`. `Hal.Led.Follows`: a light and its pin. `Utils.Ring`: src/utils/queue.
--   * `System`: the threads of the application and of the uplink over their ports, as a sequence of
--     turns; `System.Recovery` is the way back from an outage, `System.Returns` any order of turns.
--   * `Concentrator`: the whole device, that is `System` with the Bluetooth callback, the
--     acquisition and diagnostics threads and the heartbeat timer, over the shared ports, the one
--     device table and the one error light. `Environment` says what it relies on, `Order` is about
--     any order of turns, `Delivery` about one advertisement on its way to the transport.
--   * The `Widths` modules of `DeviceTable`, `Acquisition` and `Comms` carry the machine widths of
--     the fields from the bytes of an advertisement to those of a payload; `App.Latch` is about the
--     fault latch under the application, `Comms.Carried` about the records in the payloads.
--   * `Diagnostics`: src/svc/system_diagnostics.
--   * `Tests`: each result at a concrete input.
--
-- Numbers are natural numbers with the wrap-around of their width written out; a signed field,
-- which the firmware only copies, is its bit pattern. A pointer into the table is an index. A mutex
-- makes the operation that it guards one step; what another thread does between two steps is a
-- parameter (`Env.meanwhile`, which stands for the time of a send, accepted or refused). `Run`
-- tells a call that comes back from one that a failed assertion stops.
--
-- Fuel: parse_from gets one unit more than the payload has bytes, drain_report_pool one more than
-- the pool has reports, send_loop one for each byte, wait_from one more than the milliseconds.
-- Every round uses up at least one of them, and the results on these functions show that none runs
-- out; for wait_from as long as its count of milliseconds does not wrap.
--
-- Not modelled: Zephyr, whose queues, timers, network stack and radio are parameters; main.cpp,
-- src/assert and src/utils/log, which are constants, macros and single calls; and the semaphore,
-- the mutex, the uptime and the delay of src/hal/os, which are single calls. Log lines are left
-- out.
pub mod Prelude
pub mod Config
pub mod DeviceTable
pub mod Fault
pub mod Utils
pub mod Eda
pub mod Events
pub mod Hal
pub mod App
pub mod Wire
pub mod Acquisition
pub mod Link
pub mod Comms
pub mod System
pub mod Concentrator
pub mod Diagnostics
pub mod Tests
