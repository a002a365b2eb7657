-- ===== src/InetAddr/Text.antt =====
-- An address shows the text and the port that it was made of.
use chtho.Prelude.{
  ℕ, ◌-◌, ◌^◌, ◌<◌, ◌≡◌, refl, sym, ap, ◌∙◌, Bool, true, false, ◌||◌, List, ◌∷◌, ◌++◌, some, ok,
  ltb, if◌then◌else◌, length, take_all, arith, Bool-cases, inl, inr,
}
use chtho.Buffer.Ints.{swap16}
use chtho.Socket.{
  SockAddr, Texts, af_inet, af_inet6, zeroed, zeroed4, from_ip_port, from_ip_port6, cut, ntop,
  to_ip, to_ip_port,
}
use chtho.InetAddr.{has_colon, make, ip_text, ip_port, port}

-- The family that the constructor takes.
abbrev pub is_six : List ℕ → Bool → Bool
is_six ip ipv6 = ipv6 || has_colon ip

abbrev pub family_of : List ℕ → Bool → ℕ
family_of ip ipv6 = if is_six ip ipv6 then af_inet6 else af_inet

-- The text is that of an address of the family, as inet_ntop(3) prints it, and the port is a port.
pub record IsAddress (t : Texts) (ip : List ℕ) (p : ℕ) (ipv6 : Bool) (bytes : List ℕ) : Type 0 where
  pub port_small : p < 2 ^ 16
  pub parsed : t.inet_pton (family_of ip ipv6) ip ≡ some bytes
  pub printed : t.inet_ntop (family_of ip ipv6) bytes ≡ ip
  pub ip_short : length ip < 46
  pub port_short : length (t.print_u p) < 6

pub swap_twice : (p : ℕ) → p < 2 ^ 16 → swap16 (swap16 p) ≡ p
swap_twice p small = omega arith

cut_short : (sz : ℕ) (xs : List ℕ) → length xs < sz → cut sz xs ≡ xs
cut_short sz xs short = take_all _ xs (omega arith)

ntop_short :
    (t : Texts) (sz f : ℕ) (bytes ip : List ℕ)
    → t.inet_ntop f bytes ≡ ip
    → length ip < sz
    → ntop t sz f bytes ≡ ip
ntop_short t sz f bytes ip e short = rw e (ground arith)

from_six :
    (t : Texts) (ip bytes : List ℕ) (p : ℕ) (a : SockAddr)
    → t.inet_pton af_inet6 ip ≡ some bytes
    → from_ip_port6 t ip p a ≡ record a { family = af_inet6; port = swap16 p; sin6_addr = bytes }
unfolding from_ip_port6
from_six t ip bytes p a e = rw (from_ip_port6, e) refl

from_four :
    (t : Texts) (ip bytes : List ℕ) (p : ℕ) (a : SockAddr)
    → t.inet_pton af_inet ip ≡ some bytes
    → from_ip_port t ip p a ≡ record a { family = af_inet; port = swap16 p; sin_addr = bytes }
unfolding from_ip_port
from_four t ip bytes p a e = rw (from_ip_port, e) refl

module _ (t : Texts) (memory : SockAddr) (ip : List ℕ) (p : ℕ) (ipv6 : Bool) (bytes : List ℕ)
    (v : IsAddress t ip p ipv6 bytes) where
  abbrev pub made : SockAddr
  made = make t memory ip p ipv6

  abbrev pub six : SockAddr
  six = record zeroed { family = af_inet6; port = swap16 p; sin6_addr = bytes }

  abbrev pub four : SockAddr
  four = record (zeroed4 memory) { family = af_inet; port = swap16 p; sin_addr = bytes }

  pub made-six : is_six ip ipv6 ≡ true → made ≡ six
  unfolding make
  made-six h =
      let e : t.inet_pton af_inet6 ip ≡ some bytes =
        ap (λ b. t.inet_pton (if b then af_inet6 else af_inet) ip) (sym h) ∙ v.parsed in
      rw (h, from_six t ip bytes p zeroed e) refl

  pub made-four : is_six ip ipv6 ≡ false → made ≡ four
  unfolding make
  made-four h =
      let e : t.inet_pton af_inet ip ≡ some bytes =
        ap (λ b. t.inet_pton (if b then af_inet6 else af_inet) ip) (sym h) ∙ v.parsed in
      rw (h, from_four t ip bytes p (zeroed4 memory) e) refl

  printed_six : is_six ip ipv6 ≡ true → t.inet_ntop af_inet6 bytes ≡ ip
  printed_six h = ap (λ b. t.inet_ntop (if b then af_inet6 else af_inet) bytes) (sym h) ∙ v.printed

  printed_four : is_six ip ipv6 ≡ false → t.inet_ntop af_inet bytes ≡ ip
  printed_four h = ap (λ b. t.inet_ntop (if b then af_inet6 else af_inet) bytes) (sym h) ∙ v.printed

  to_ip-six : (sz : ℕ) → 45 < sz → is_six ip ipv6 ≡ true → to_ip t sz six ≡ ip
  unfolding to_ip
  to_ip-six sz room h =
      ntop_short t sz af_inet6 bytes ip (printed_six h) (omega (arith, v.ip_short, room))

  to_ip-four : (sz : ℕ) → 45 < sz → is_six ip ipv6 ≡ false → to_ip t sz four ≡ ip
  unfolding to_ip
  to_ip-four sz room h =
      ntop_short t sz af_inet bytes ip (printed_four h) (omega (arith, v.ip_short, room))

  ip_port_six : is_six ip ipv6 ≡ true → to_ip_port t 64 six ≡ ok (91 ∷ ip ++ 93 ∷ 58 ∷ t.print_u p)
  unfolding to_ip_port
  ip_port_six h =
      let room : ltb (length (91 ∷ ip)) 64 ≡ true = ground (arith, v.ip_short) in
      rw (to_ip-six 63 (omega arith) h, swap_twice p v.port_small, room)
        (ap (λ xs. ok (91 ∷ ip ++ xs))
          (cut_short (64 - length (91 ∷ ip)) (93 ∷ 58 ∷ t.print_u p)
            (omega (arith, v.ip_short, v.port_short))))

  ip_port_four : is_six ip ipv6 ≡ false → to_ip_port t 64 four ≡ ok (ip ++ 58 ∷ t.print_u p)
  unfolding to_ip_port
  ip_port_four h =
      let room : ltb (length ip) 64 ≡ true = ground (arith, v.ip_short) in
      rw (to_ip-four 64 (omega arith) h, swap_twice p v.port_small, room)
        (ap (λ xs. ok (ip ++ xs))
          (cut_short (64 - length ip) (58 ∷ t.print_u p) (omega (arith, v.ip_short, v.port_short))))

  -- Of an address that was made of a port below 2 ^ 16, which snprintf(3) prints in less than six
  -- characters, and of a text of less than 46 characters that inet_pton(3) reads in the family that
  -- the constructor takes, and that is the one that inet_ntop(3) prints of what was read: `port` is
  -- the port, `ip` the text, and `ipPort` both with a colon between, and the text in brackets if the
  -- address is one of IPv6.
  pub ip_port-make :
      (port made ≡ p)
      × (ip_text t made ≡ ip)
      × (ip_port t made
          ≡ ok
              (if is_six ip ipv6 then 91 ∷ ip ++ 93 ∷ 58 ∷ t.print_u p else ip ++ 58 ∷ t.print_u p))
  unfolding ip_text ip_port
  ip_port-make = elim (Bool-cases (is_six ip ipv6)) [
    | inl h ↦
        rw (made-six h, h) (swap_twice p v.port_small, to_ip-six 64 (omega arith) h, ip_port_six h)
    | inr h ↦
        rw (made-four h, h)
          (swap_twice p v.port_small, to_ip-four 64 (omega arith) h, ip_port_four h)
  ]
