-- ===== src/Acceptor/Tests.antt =====
-- Two connections, of which the second one finds no descriptor free.
use chtho.Prelude.{◌≡◌, refl, List, [], ◌∷◌, some, ok}
use chtho.Acceptor.{Acceptor, Answer, took, refused, make, set_new_conn, handle_reads, emfile}
use chtho.Acceptor.Balance.{Balanced, all_given, handle_reads-Balanced}

abbrev two : List Answer
two = took 7 ∷ refused emfile (some 3) (some 3) ∷ []

handle_reads-Balanced_example :
    (a : Acceptor) × (handle_reads (set_new_conn (make 3)) two ≡ ok a)
    × Balanced a (3 ∷ all_given two)
handle_reads-Balanced_example = handle_reads-Balanced 3 two (refl, tt)
