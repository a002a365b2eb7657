-- ===== src/InetAddr.antt =====
-- chtho/net/InetAddr.h and InetAddr.cpp: the address of a socket. gethostbyname_r(3) is given by what
-- it returns.
pub mod Text
pub mod SelfConnect
mod Tests
use chtho.Prelude.{
  ℕ, Bool, true, false, ◌||◌, List, [], ◌∷◌, ◌++◌, Option, none, some, Result, ok, ◌>>=◌, ◌>>◌,
  guard, ◌==◌, if◌then◌else◌, length, replicate, ◌&&◌,
}
use chtho.Buffer.Ints.{swap16}
use chtho.Socket.{
  SockAddr, Texts, af_inet, af_inet6, zeroed, zeroed4, from_ip_port, from_ip_port6, to_ip,
  to_ip_port,
}

-- in6addr_loopback and in6addr_any; INADDR_LOOPBACK and INADDR_ANY in network order.
abbrev any6 : List ℕ
any6 = replicate 16 0

abbrev loopback6 : List ℕ
loopback6 = replicate 15 0 ++ 1 ∷ []

abbrev any4 : List ℕ
any4 = replicate 4 0

abbrev loopback4 : List ℕ
loopback4 = 127 ∷ 0 ∷ 0 ∷ 1 ∷ []

-- The constructors, on memory with anything in it.
unfoldable pub listen_addr : SockAddr → ℕ → Bool → Bool → SockAddr
listen_addr memory port loopback_only ipv6 =
    if ipv6
    then record zeroed {
      family = af_inet6;
      sin6_addr = if loopback_only then loopback6 else any6;
      port = swap16 port;
    }
    else record (zeroed4 memory) {
      family = af_inet;
      sin_addr = if loopback_only then loopback4 else any4;
      port = swap16 port;
    }

-- strchr(3) of ':'
abbrev pub has_colon : List ℕ → Bool
has_colon [] = false
has_colon (x ∷ xs) = x == 58 || has_colon xs

unfoldable pub make : Texts → SockAddr → List ℕ → ℕ → Bool → SockAddr
make t memory ip port ipv6 =
    if ipv6 || has_colon ip
    then from_ip_port6 t ip port zeroed
    else from_ip_port t ip port (zeroed4 memory)

-- The buffers of both have 64 bytes.
unfoldable pub ip_text : Texts → SockAddr → List ℕ
ip_text t a = to_ip t 64 a

unfoldable pub ip_port : Texts → SockAddr → Result (List ℕ)
ip_port t a = to_ip_port t 64 a

abbrev pub port : SockAddr → ℕ
port a = swap16 a.port

ipv4_net_endian : SockAddr → Result (List ℕ)
ipv4_net_endian a = do guard (a.family == af_inet); ok a.sin_addr

set_sock_addr_inet6 : SockAddr → SockAddr → SockAddr
set_sock_addr_inet6 a addr6 = addr6

set_scope_id : SockAddr → ℕ → SockAddr
set_scope_id a sid = if a.family == af_inet6 then record a { scope_id = sid } else a

-- What gethostbyname_r(3) finds: the family, and the bytes of the first address.
abbrev pub Host : Type 0
Host = ℕ × List ℕ

-- `resolve` sets the address alone, not the family or the port.
resolve : Option Host → SockAddr → Result (SockAddr × Bool)
resolve none out = ok (out, false)
resolve (some (addrtype, bytes)) out = do
  guard (addrtype == af_inet && length bytes == 4)
  ok (record out { sin_addr = bytes }, true)
