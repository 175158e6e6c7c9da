-- ===== src/Net/Netif.antt =====
-- The interface list of src/kernel/net/netif.cpp and src/include/kernel/net/netif.hpp, as far as
-- the IPv4 and Ethernet layers read it. `id` stands for the pointer to a netif; the driver, the
-- transmit queue and the name are left out.
use rucux.Base.{ℕ, Bool, false, Option, none, some, List, [], ◌∷◌, ◌==◌, if◌then◌else◌}

pub record Netif : Type 0 where
  pub id : ℕ
  pub addr : ℕ
  pub netmask : ℕ
  pub gateway : ℕ
  pub mtu : ℕ
  pub mac : List ℕ

-- g_iface_list and g_loopback
pub record Interfaces : Type 0 where
  pub list : List Netif
  pub loopback : Option Netif

-- iface == netif_loopback()
unfoldable pub is_loopback : Interfaces → Netif → Bool
is_loopback ifs iface = elim ifs.loopback [ none ↦ false | some lo ↦ iface.id == lo.id ]

unfoldable pub netif_register : Interfaces → Netif → Interfaces
netif_register ifs iface = record ifs { list = iface ∷ ifs.list }

unfoldable pub first_with_gateway : List Netif → Option Netif
first_with_gateway [] = none
first_with_gateway (i ∷ is) = if i.gateway == 0 then first_with_gateway is else some i

unfoldable pub first_physical : Interfaces → List Netif → Option Netif
unfolding is_loopback
first_physical ifs [] = none
first_physical ifs (i ∷ is) = if is_loopback ifs i then first_physical ifs is else some i

unfoldable pub netif_default : Interfaces → Option Netif
unfolding first_with_gateway first_physical
netif_default ifs = elim (first_with_gateway ifs.list) [
  | some i ↦ some i
  | none ↦ elim (first_physical ifs ifs.list) [ some i ↦ some i | none ↦ ifs.loopback ]
]
