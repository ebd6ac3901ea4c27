-- ===== src/Netlink.antt =====
-- src/ext/ext_netlink.c and src/ext/netlink.c: netlink requests and interface setup.
pub mod Uapi
mod Attributes
mod Socket
mod Addresses
mod Routes
mod Link
mod Setup
mod Reader
pub mod Laws
mod Tests
unfoldable pub use Routes.{add_route, setup_routes_loop, setup_routes}
unfoldable pub use Setup.{set_mac_mtu, setup_ip}
unfoldable pub use Socket.{named_ifreq}
