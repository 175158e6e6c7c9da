-- ===== src/Net/Netbuf/Tests.antt =====
-- The packet buffer theorems at a small buffer.
use rucux.Base.{ℕ, zero, suc, List, [], ◌∷◌}
use rucux.Net.Netbuf.{Netbuf}

zeros : ℕ → List ℕ
zeros zero = []
zeros (suc n) = 0 ∷ zeros n

abbrev fresh : Netbuf
unfolding zeros
fresh = record {
  bytes = zeros 160;
  start = 128;
  len = 0;
  total_size = 160;
  src_ip = 0;
  dst_ip = 0;
  src_port = 0;
  dst_port = 0;
  protocol = 0;
}
