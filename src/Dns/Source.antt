-- ===== src/Dns/Source.antt =====
-- sourceIP of internal/dnsudp/server.go. A net.Addr is a UDP address, with the bytes of its IP, or
-- any other, with its text. netip.ParseAddrPort is a parameter.
use ts_domain_gateway.Common.{
  ℕ, ◌+◌, ◌*◌, [], ◌∷◌, Option, none, some, length, ◌==◌, nat_eq, if◌then◌else◌,
}
use ts_domain_gateway.GoText.{Bytes}
use ts_domain_gateway.Net.{Addr, invalid, v4, v6}

pub data Client : Type 0 where
  udp : Bytes → Client
  other : Bytes → Client

-- A big-endian number behind `n`.
abbrev pub big_endian : ℕ → Bytes → ℕ
big_endian n [] = n
big_endian n (c ∷ s) = big_endian (n * 256 + c) s

-- netip.AddrFromSlice, with the zero Addr for a slice of another length
unfoldable pub addr_from_slice : Bytes → Addr
addr_from_slice b =
    if length b == 4
    then v4 (big_endian 0 b)
    else if length b == 16
    then v6 (big_endian 0 b)
    else invalid

unfoldable pub source_ip : (Bytes → Option Addr) → Client → Addr
unfolding addr_from_slice
source_ip parse_addr_port (udp ip) = addr_from_slice ip
source_ip parse_addr_port (other text) = elim (parse_addr_port text) [
  | none ↦ invalid
  | some ip ↦ ip
]
