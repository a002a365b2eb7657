-- ===== src/Socket.antt =====
-- chtho/net/Socket.cpp: the functions on addresses. inet_pton(3), inet_ntop(3) and what snprintf(3)
-- prints are parameters; getsockname(2) and getpeername(2) are given by what they store.
use chtho.Prelude.{
  ℕ, ◌-◌, Bool, true, false, ◌&&◌, List, [], ◌∷◌, ◌++◌, Option, none, some, Result, ok, ◌>>◌, guard,
  ltb, ◌==◌, if◌then◌else◌, length, take, drop, replicate,
}
use chtho.Buffer.Ints.{swap16}

-- AF_INET and AF_INET6
abbrev pub af_inet : ℕ
af_inet = 2

abbrev pub af_inet6 : ℕ
af_inet6 = 10

-- The two views of an address, `sockaddr_in` and `sockaddr_in6`: the family and the port have one
-- place in both; `sin_addr` is where the other view has its flow, and `sin6_addr` lies behind it.
-- Ports are in network order.
pub record SockAddr : Type 0 where
  pub family : ℕ
  pub port : ℕ
  pub sin_addr : List ℕ
  pub sin6_addr : List ℕ
  pub scope_id : ℕ

-- After memset(3) to 0.
abbrev pub zeroed : SockAddr
zeroed = record {
  family = 0;
  port = 0;
  sin_addr = replicate 4 0;
  sin6_addr = replicate 16 0;
  scope_id = 0;
}

-- What memset(3) to 0 leaves, where only the view of AF_INET is set: its padding covers the first
-- half of `sin6_addr`.
abbrev pub zeroed4 : SockAddr → SockAddr
zeroed4 a = record a {
  family = 0;
  port = 0;
  sin_addr = replicate 4 0;
  sin6_addr = replicate 8 0 ++ drop 8 a.sin6_addr;
}

-- inet_pton(3) by family, inet_ntop(3) by family, and "%u" of snprintf(3).
pub record Texts : Type 0 where
  pub inet_pton : ℕ → List ℕ → Option (List ℕ)
  pub inet_ntop : ℕ → List ℕ → List ℕ
  pub print_u : ℕ → List ℕ

-- `fromIpPort` of both families; where the text is no address, the bytes stay.
unfoldable pub from_ip_port : Texts → List ℕ → ℕ → SockAddr → SockAddr
from_ip_port t ip port a =
    let a₁ = record a { family = af_inet; port = swap16 port } in
    elim (t.inet_pton af_inet ip) [ none ↦ a₁ | some bytes ↦ record a₁ { sin_addr = bytes } ]

unfoldable pub from_ip_port6 : Texts → List ℕ → ℕ → SockAddr → SockAddr
from_ip_port6 t ip port a =
    let a₁ = record a { family = af_inet6; port = swap16 port } in
    elim (t.inet_pton af_inet6 ip) [ none ↦ a₁ | some bytes ↦ record a₁ { sin6_addr = bytes } ]

-- The text that fits in `sz` bytes with its '\0': snprintf(3) cuts it.
abbrev pub cut : ℕ → List ℕ → List ℕ
cut sz text = take (sz - 1) text

-- inet_ntop(3) leaves the buffer where the text does not fit.
abbrev pub ntop : Texts → ℕ → ℕ → List ℕ → List ℕ
ntop t sz family bytes =
    let text = t.inet_ntop family bytes in if ltb (length text) sz then text else []

-- `toIp` into `sz` bytes that hold the empty text.
unfoldable pub to_ip : Texts → ℕ → SockAddr → List ℕ
to_ip t sz a =
    if a.family == af_inet
    then ntop t sz af_inet a.sin_addr
    else if a.family == af_inet6
    then ntop t sz af_inet6 a.sin6_addr
    else []

-- "]:%u" and ":%u"
unfoldable pub to_ip_port : Texts → ℕ → SockAddr → Result (List ℕ)
unfolding to_ip
to_ip_port t sz a =
    let bracketed = 91 ∷ to_ip t (sz - 1) a in
    let plain = to_ip t sz a in
    let port = swap16 a.port in
    if a.family == af_inet6
    then (do
      guard (ltb (length bracketed) sz)
      ok (bracketed ++ cut (sz - length bracketed) (93 ∷ 58 ∷ t.print_u port)))
    else (do
      guard (ltb (length plain) sz)
      ok (plain ++ cut (sz - length plain) (58 ∷ t.print_u port)))

-- `getLocalAddr` and `getPeerAddr`: what the call has stored, if it succeeds.
abbrev pub get_addr : Option SockAddr → SockAddr
get_addr none = zeroed
get_addr (some a) = a

-- `memcmp` and `==` of bytes.
unfoldable pub same_bytes : List ℕ → List ℕ → Bool
same_bytes [] [] = true
same_bytes (x ∷ xs) (y ∷ ys) = x == y && same_bytes xs ys
same_bytes _ _ = false

-- `isSelfConnect`, with what getsockname(2) and getpeername(2) store.
unfoldable pub is_self_connect : Option SockAddr → Option SockAddr → Bool
is_self_connect stored_local stored_peer =
    let localaddr = get_addr stored_local in
    let peeraddr = get_addr stored_peer in
    if localaddr.family == af_inet
    then localaddr.port == peeraddr.port && same_bytes localaddr.sin_addr peeraddr.sin_addr
    else if localaddr.family == af_inet6
    then localaddr.port == peeraddr.port && same_bytes localaddr.sin6_addr peeraddr.sin6_addr
    else false

-- `getSocketError`: SO_ERROR, or errno where getsockopt(2) fails.
get_socket_error : Bool → ℕ → ℕ → ℕ
get_socket_error failed errno opt = if failed then errno else opt
