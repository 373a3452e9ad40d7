-- ===== src/Link/Tcp.antt =====
-- src/hal/link/tcp/link_tcp.cpp: the bring-up of the wired interface under the socket transport.
use base_platform_zephyr_ble.Prelude.{Bool, not, if◌then◌else◌}
use base_platform_zephyr_ble.Link.{LinkError, not_ready}
use base_platform_zephyr_ble.Link.Socket.Ipv4.{Addressing, Ipv4, Iface, take_address}

-- `has_interface` is whether there is a default interface.
unfoldable pub bring_up_network : Ipv4 → Addressing → Bool → Iface → Iface × LinkError
unfolding take_address
bring_up_network net a has_interface i =
    if not has_interface then (i, not_ready) else take_address net a i
