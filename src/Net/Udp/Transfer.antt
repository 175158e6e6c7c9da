-- ===== src/Net/Udp/Transfer.antt =====
-- A datagram from udp_sendto to the receive queue of src/kernel/net/udp.cpp, by way of
-- src/kernel/net/ipv4.cpp.
use rucux.Base.{
  ℕ, ◌+◌, ◌-◌, ◌%◌, ◌^◌, ◌≤◌, ◌<◌, ◌≡◌, refl, sym, ap, ap₂, ◌∙◌, false, some, List, ◌++◌, arith,
  length, get_or,
}
use rucux.Net.Netbuf.{Netbuf, push, put, pull, set_len}
use rucux.Net.Netbuf.Laws.{IsValid}
use rucux.Net.Netbuf.Window.{
  window, store, length-store, window-store, window-store_after, window-window, get_or-window,
  window_behind, window_whole, window-append,
}
use rucux.Net.Ipv4.{byte_at, be16_at}
use rucux.Net.Udp.{udp_header, udp_header_len, with_datagram, le16_at, is_bad, datagram}

-- A buffer that holds a datagram: its header and its payload.
pub record Carries (b : Netbuf) (payload : List ℕ) (src_port dst_port : ℕ) : Type 0 where
  pub size : b.len ≡ udp_header_len + length payload
  pub inside : b.start + b.len ≤ b.total_size
  pub content : window b.bytes b.start b.len ≡ udp_header src_port dst_port b.len ++ payload

module _ (b : Netbuf) (payload : List ℕ) (src_port dst_port : ℕ)
    (c : Carries b payload src_port dst_port) where
  Carries-byte :
      (i : ℕ) → i < 8 → byte_at b i ≡ get_or (udp_header src_port dst_port b.len ++ payload) i 0
  Carries-byte i h =
      get_or-window b.bytes b.start b.len i (b.start + i) (omega (arith, c.size)) refl
      ∙ ap (λ (bs : List ℕ). get_or bs i 0) c.content

  pub Carries-payload : window b.bytes (b.start + 8) (length payload) ≡ payload
  Carries-payload =
      sym (
        window-window b.bytes b.start b.len 8 (length payload) (omega (arith, c.size)) (b.start + 8)
          refl)
      ∙ ap (λ (bs : List ℕ). window bs 8 (length payload)) c.content
      ∙ window_behind (udp_header src_port dst_port b.len) payload (length payload)
      ∙ window_whole payload

  module _ (short : length payload ≤ 1472) (sp : src_port < 2 ^ 16) (dp : dst_port < 2 ^ 16) where
    pub Carries-ports :
        (le16_at b 0 ≡ src_port)
        × (le16_at b 2 ≡ dst_port)
        × (be16_at b 4 ≡ b.len)
        × (le16_at b 6 ≡ 0)
    Carries-ports = (
      omega (arith, Carries-byte 0 (omega arith), Carries-byte 1 (omega arith)),
      omega (arith, Carries-byte 2 (omega arith), Carries-byte 3 (omega arith)),
      omega (arith, c.size, Carries-byte 4 (omega arith), Carries-byte 5 (omega arith)),
      omega (arith, Carries-byte 6 (omega arith), Carries-byte 7 (omega arith)),
    )

    pub Carries-good : is_bad b ≡ false
    unfolding is_bad
    Carries-good = let ports = Carries-ports in ground (arith, c.size)

    -- The buffer that is enqueued.
    pub Carries-datagram : datagram b ≡ record b {
      start = b.start + 8;
      len = length payload;
      src_port = src_port;
      dst_port = dst_port;
    }
    unfolding datagram set_len pull
    Carries-datagram = let ports = Carries-ports in ground (arith, c.size, c.inside)

-- What udp_sendto makes of a fresh buffer.
abbrev pub packet_of : Netbuf → List ℕ → ℕ → ℕ → Netbuf
packet_of b payload src_port dst_port = record b {
  start = b.start - 8;
  len = length payload + 8;
  bytes =
      store (store b.bytes b.start payload) (b.start - 8)
        (udp_header src_port dst_port ((udp_header_len + length payload) % 2 ^ 16));
}

module _ (b : Netbuf) (payload : List ℕ) (src_port dst_port : ℕ) (v : IsValid b) (empty : b.len ≡ 0)
    (front : 8 ≤ b.start) (room : b.start + length payload ≤ b.total_size)
    (short : length payload ≤ 1472) where
  pub with_datagram_lem :
      with_datagram b payload src_port dst_port ≡ some (packet_of b payload src_port dst_port)
  unfolding with_datagram put push
  with_datagram_lem = ground arith

  pub packet_of-Carries : Carries (packet_of b payload src_port dst_port) payload src_port dst_port
  packet_of-Carries =
      let n : ℕ = length payload in
      let at : ℕ = b.start - 8 in
      let hdr : List ℕ = udp_header src_port dst_port (n + 8) in
      let filled : List ℕ = store b.bytes b.start payload in
      let whole : length filled ≡ b.total_size = length-store b.bytes b.start payload ∙ v.block in
      let bs : List ℕ = store filled at hdr in
      let same : (udp_header_len + n) % 2 ^ 16 ≡ n + 8 = omega arith in
      record {
        size = omega arith;
        inside = omega arith;
        content =
            ap (λ k. window (store filled at (udp_header src_port dst_port k)) at (n + 8)) same
            ∙ window-append bs at 8 n b.start (n + 8) (omega arith) (omega arith)
            ∙ ap₂ (λ xs ys. xs ++ ys) (window-store filled at hdr (omega arith))
                (window-store_after filled at hdr b.start n (omega arith)
                  ∙ window-store b.bytes b.start payload (omega (arith, v.block)));
      }

  pub packet_of-IsValid : IsValid (packet_of b payload src_port dst_port)
  packet_of-IsValid =
      let filled : List ℕ = store b.bytes b.start payload in
      record {
        block =
            length-store filled (b.start - 8)
              (udp_header src_port dst_port ((udp_header_len + length payload) % 2 ^ 16))
            ∙ length-store b.bytes b.start payload
            ∙ v.block;
        inside = omega arith;
        sized = v.sized;
      }
