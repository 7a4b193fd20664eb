-- ===== src/Curl/Tests.antt =====
-- Dumps and sessions of curl_t.
use auxiliary_tool.Common.{
  zero, suc, ◌≡◌, refl, true, false, none, some, List, [], ◌∷◌, Bytes, codes, pos, minus_one, arith,
  ◌++◌,
}
use auxiliary_tool.ConfigFile.{c_string}
use auxiliary_tool.Printf.{digit, fixed, width_of, padded}
use auxiliary_tool.Curl.{
  Client, fresh, init, destroy, get_length, perform_error, error_text, fields, post_body, reported,
  Network, gets, posts,
}
use auxiliary_tool.Curl.Dump.{hex_cells, shown, row, dump_rows, title, dump, info_text, debug_info}
use auxiliary_tool.Curl.Dump.Read.{read_rows, read_rows-dump}
use auxiliary_tool.Curl.Session.{
  request_of, faults, stale_after, some_fault, answer, answers, run, run-answers,
}

-- Every transfer succeeds, with one block for each header and the URL as the last.
abbrev echo : Network
echo n r = (pos 0, codes "u:" ∷ r.url ∷ [], [])

abbrev client : Client
client = (init true true fresh).1

dumped :
    dump 9 (codes "T") (codes "A\n")
    ≡ some (
        codes "T, 0000000002 bytes (0x00000002)\n"
        ∷ codes "0000: 41 0a                                           A.\n"
        ∷ [])
unfolding dump dump_rows row hex_cells shown title padded width_of fixed digit
dumped = refl

-- What is told of a text is followed by a dump as of a sent header.
told_twice :
    debug_info 9 info_text (codes "A") (0 ∷ [])
    ≡ some (
        codes "== Info: A"
        ∷ codes "=> Send header, 0000000001 bytes (0x00000001)\n"
        ∷ codes "0000: 41                                              A\n"
        ∷ [])
unfolding debug_info dump dump_rows row hex_cells shown title padded width_of fixed digit c_string
told_twice = refl

read_rows-dump_example :
    (rows : List Bytes) × (dump 9 (codes "T") (codes "A\n") ≡ some (title (codes "T") 2 ∷ rows))
    × (read_rows rows ≡ codes "A\n")
read_rows-dump_example =
    read_rows-dump 9 (codes "T") (codes "A\n") (omega arith, (omega arith, tt)) (omega arith)

main_answers : answers echo 0 (gets (codes "x") ∷ []) ≡ (pos 0, get_length 3 ∷ [], codes "u:x") ∷ []
unfolding answers answer request_of reported
main_answers = refl

-- A request that is repeated may get another answer.
abbrev failing_first : Network
failing_first zero r = (minus_one, [], codes "e")
failing_first (suc n) r = (pos 0, r.url ∷ [], [])

second_try :
    answers failing_first 0 (gets (codes "x") ∷ gets (codes "x") ∷ [])
    ≡ (minus_one, perform_error ∷ error_text (codes "e") ∷ get_length 0 ∷ [], [])
      ∷ (pos 0, get_length 1 ∷ [], codes "x")
      ∷ []
unfolding answers answer request_of reported
second_try = refl

-- What follows a zero byte is not posted.
posted : post_body (codes "a" ++ (0 ∷ codes "b")) ≡ fields (codes "a")
unfolding c_string
posted = refl

-- Headers in one call and none in the next.
stale_headers :
    run echo
      (posts (codes "a") (codes "h:1" ∷ []) (codes "b") ∷ posts (codes "a") [] (codes "b") ∷ [])
      client
    ≡ none
unfolding some_fault faults stale_after init
stale_headers = run-answers echo _ false client (refl, refl)

-- A second init forgets the first handle.
init_twice : (destroy (init true true client).1).handles ≡ 1
unfolding init destroy
init_twice = refl
