-- ===== src/MetroMaps/Postgres/Results.antt =====
-- main.cpp, PostgreSQL::process_query_result.
use high_load_systems.Common.{
  ◌≡◌, refl, ap, List, [], ◌∷◌, ◌++◌, Bytes, length, arith, append-nil, sym,
}
use high_load_systems.MetroMaps.Postgres.{QueryResult, print_result, process_query_result}

-- The results at the places 0, 2, 4 and so on.
abbrev every_other : List QueryResult → List QueryResult
every_other [] = []
every_other (result ∷ []) = result ∷ []
every_other (result ∷ skipped ∷ results) = result ∷ every_other results

abbrev print_all : List QueryResult → Bytes
print_all [] = []
print_all (result ∷ results) = print_result result ++ print_all results

-- Only every other result is printed and cleared.
process_query_result-every_other :
    (results : List QueryResult)
    → ((process_query_result results).0 ≡ print_all (every_other results))
      × ((process_query_result results).1 ≡ length (every_other results))
unfolding process_query_result
process_query_result-every_other [] = (refl, refl)
process_query_result-every_other (result ∷ []) = (sym (append-nil (print_result result)), refl)
process_query_result-every_other (result ∷ tested ∷ results) =
    let (text, cleared) = process_query_result-every_other results in
    (ap (λ t. print_result result ++ t) text, omega arith)
