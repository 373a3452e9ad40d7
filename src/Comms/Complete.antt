-- ===== src/Comms/Complete.antt =====
-- A dispatch that has all the uplinks it needs, over a transport that accepts them.
use base_platform_zephyr_ble.Prelude.{ℕ, ◌+◌, ◌<◌, ◌≤◌, ◌≡◌, true, List, length}
use base_platform_zephyr_ble.Config.{Config}
use base_platform_zephyr_ble.DeviceTable.{Table}
use base_platform_zephyr_ble.Link.{Link, no_error}
use base_platform_zephyr_ble.Comms.{World, Env, header_size, record_size, fragments_needed}
use base_platform_zephyr_ble.Comms.Dispatch.{room_for, pending}
use base_platform_zephyr_ble.Comms.Fragments.Reach.{Reaches}

module _ {L : Type 0} (c : Config) (link : Link L) (env : Env) (w : World L) where
  -- The transport is joined, allows the uplinks that all that is pending needs and, in every state
  -- that its sends so far have led it to, accepts a payload of the size it has announced; and
  -- nothing arrives meanwhile.
  pub record Smooth : Type 0 where
    pub joined : link.is_connected w.link ≡ true
    pub rate : header_size < link.get_max_payload_size w.link
    pub size : header_size + record_size ≤ link.get_available_payload_size w.link
    pub uplinks :
        fragments_needed (length (pending c link env w)) (room_for c link env w)
        ≤ link.get_max_uplinks_per_dispatch w.link
    pub accepts :
        (p : List ℕ) (l : L)
        → Reaches link (link.get_available_payload_size w.link) w.link l
        → length p ≤ link.get_available_payload_size w.link
        → (link.send p l).1 ≡ no_error
    pub calm : (j : ℕ) (u : Table) → env.meanwhile j u ≡ u
