-- ===== src/InetAddr/Tests.antt =====
-- The addresses "1.2.3.4" and ports 80 and 81, with texts that are the bytes with points between.
use chtho.Prelude.{
  ℕ, ◌≡◌, ◌↔◌, refl, true, false, List, [], ◌∷◌, ◌++◌, some, ok, arith, if◌then◌else◌,
}
use chtho.Socket.{SockAddr, Texts, zeroed, is_self_connect}
use chtho.InetAddr.{make, ip_text, ip_port, port}
use chtho.InetAddr.Text.{IsAddress, is_six, ip_port-make}
use chtho.InetAddr.SelfConnect.{is_self_connect-make}

abbrev text : List ℕ
text = 49 ∷ 46 ∷ 50 ∷ 46 ∷ 51 ∷ 46 ∷ 52 ∷ []

abbrev texts : Texts
texts = record {
  inet_pton = λ f xs. some (1 ∷ 2 ∷ 3 ∷ 4 ∷ []);
  inet_ntop = λ f bytes. text;
  print_u = λ n. 56 ∷ 48 ∷ [];
}

abbrev http : ℕ
http = 80

text-IsAddress : IsAddress texts text 80 false (1 ∷ 2 ∷ 3 ∷ 4 ∷ [])
text-IsAddress = record {
  port_small = omega arith;
  parsed = refl;
  printed = refl;
  ip_short = omega arith;
  port_short = omega arith;
}

abbrev made : SockAddr
made = make texts zeroed text 80 false

ip_port-make_example :
    (port made ≡ 80)
    × (ip_text texts made ≡ text)
    × (ip_port texts made
        ≡ ok (
            if is_six text false
            then 91 ∷ text ++ 93 ∷ 58 ∷ texts.print_u 80
            else text ++ 58 ∷ texts.print_u 80))
ip_port-make_example = ip_port-make texts zeroed text 80 false (1 ∷ 2 ∷ 3 ∷ 4 ∷ []) text-IsAddress

is_self_connect-make_example :
    (is_self_connect (some made) (some made) ≡ true) ↔ ((text ≡ text) × (http ≡ http))
is_self_connect-make_example =
    is_self_connect-make texts zeroed zeroed text text http http false false (1 ∷ 2 ∷ 3 ∷ 4 ∷ [])
      (1 ∷ 2 ∷ 3 ∷ 4 ∷ []) text-IsAddress text-IsAddress refl
