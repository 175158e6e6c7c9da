-- ===== src/Net.antt =====
-- src/kernel/net: the Internet checksum, the packet buffer, the interface list, IPv4 and ethernet.
pub mod Checksum
pub mod Netbuf
pub mod Netif
pub mod Ipv4
pub mod Ethernet
pub mod Udp
