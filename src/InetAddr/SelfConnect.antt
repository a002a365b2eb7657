-- ===== src/InetAddr/SelfConnect.antt =====
-- `Socket::isSelfConnect` compares addresses.
use chtho.Prelude.{
  ℕ, ◌≡◌, ◌↔◌, refl, sym, ap, ◌∙◌, Bool, true, ◌&&◌, List, [], ◌∷◌, some, ◌==◌, if◌then◌else◌,
  arith, Bool-cases, inl, inr,
}
use chtho.Buffer.Ints.{swap16}
use chtho.Socket.{SockAddr, Texts, af_inet, af_inet6, same_bytes, is_self_connect}
use chtho.InetAddr.{make}
use chtho.InetAddr.Text.{is_six, family_of, IsAddress, swap_twice, made-six, made-four}

same_bytes_refl : (xs : List ℕ) → same_bytes xs xs ≡ true
unfolding same_bytes
same_bytes_refl [] = refl
same_bytes_refl (x ∷ xs) = ground (arith, same_bytes_refl xs)

same_bytes_equal : (xs ys : List ℕ) → same_bytes xs ys ≡ true → xs ≡ ys
unfolding same_bytes
same_bytes_equal [] [] h = refl
same_bytes_equal [] (y ∷ ys) h = cc
same_bytes_equal (x ∷ xs) [] h = cc
same_bytes_equal (x ∷ xs) (y ∷ ys) h =
    let first : x ≡ y = ground (arith, h) in
    let rest : same_bytes xs ys ≡ true = ground (arith, h) in
    ap (λ z. z ∷ xs) first ∙ ap (λ zs. y ∷ zs) (same_bytes_equal xs ys rest)

compared : (p p' : ℕ) (xs ys : List ℕ) → p == p' && same_bytes xs ys ≡ true → (p ≡ p') × (xs ≡ ys)
compared p p' xs ys h = (ground (arith, h), same_bytes_equal xs ys (ground (arith, h)))

module _ (t : Texts) (m m' : SockAddr) (ip ip' : List ℕ) (p p' : ℕ) (ipv6 ipv6' : Bool)
    (bytes bytes' : List ℕ) (v : IsAddress t ip p ipv6 bytes) (v' : IsAddress t ip' p' ipv6' bytes')
    (alike : is_six ip ipv6 ≡ is_six ip' ipv6') where
  abbrev same_ends : Bool
  same_ends = swap16 p == swap16 p' && same_bytes bytes bytes'

  self-same :
      is_self_connect (some (make t m ip p ipv6)) (some (make t m' ip' p' ipv6')) ≡ same_ends
  unfolding is_self_connect
  self-same = elim (Bool-cases (is_six ip ipv6)) [
    | inl h ↦
        rw (made-six t m ip p ipv6 bytes v h, made-six t m' ip' p' ipv6' bytes' v' (sym alike ∙ h))
          refl
    | inr h ↦
        rw
          (made-four t m ip p ipv6 bytes v h, made-four t m' ip' p' ipv6' bytes' v' (sym alike ∙ h))
          refl
  ]

  family_same : family_of ip ipv6 ≡ family_of ip' ipv6'
  family_same = ap (λ b. if b then af_inet6 else af_inet) alike

  from_same : same_ends ≡ true → (ip ≡ ip') × (p ≡ p')
  from_same h =
      let (ports, same) = compared (swap16 p) (swap16 p') bytes bytes' h in
      (
        sym v.printed
            ∙ ap (t.inet_ntop (family_of ip ipv6)) same
            ∙ ap (λ f. t.inet_ntop f bytes') family_same
            ∙ v'.printed,
        sym (swap_twice p v.port_small) ∙ ap swap16 ports ∙ swap_twice p' v'.port_small,
      )

  some_bytes : some bytes ≡ some bytes' → bytes ≡ bytes'
  some_bytes e = cc

  to_same : (ip ≡ ip') × (p ≡ p') → same_ends ≡ true
  to_same (e, q) =
      let same : bytes ≡ bytes' = some_bytes (
        sym v.parsed
        ∙ ap (t.inet_pton (family_of ip ipv6)) e
        ∙ ap (λ f. t.inet_pton f ip') family_same
        ∙ v'.parsed) in
      rw (← same, ← q) (ground (arith, same_bytes_refl bytes))

  -- Of a socket whose two ends have addresses of one family, each made of a port below 2 ^ 16, which
  -- is printed in less than six characters, and of a text of less than 46 characters that
  -- inet_pton(3) reads in that family, and that is the one that inet_ntop(3) prints of what was
  -- read: isSelfConnect is true exactly if the texts and the ports are the same.
  pub is_self_connect-make :
      (is_self_connect (some (make t m ip p ipv6)) (some (make t m' ip' p' ipv6')) ≡ true)
      ↔ ((ip ≡ ip') × (p ≡ p'))
  is_self_connect-make = ((λ h. from_same (sym self-same ∙ h)), λ h. self-same ∙ to_same h)
