-- ===== src/HttpParser/Labels.antt =====
-- The labels `trN` of src/http11/http11_parser.c: their actions, and the state they lead to.
use mongrel.Prelude.{[], ◌∷◌}
use mongrel.Ragel.{Goto, tr, fbreak}
use mongrel.HttpParser.{
  Action, done, fragment, http_version, json, mark, query_string, request_method, request_path,
  request_uri, socket, start_field, start_query, start_value, write_field, write_value,
}

abbrev pub tr0 : Goto Action
tr0 = tr (mark ∷ []) 2

abbrev pub tr3 : Goto Action
tr3 = tr (mark ∷ []) 82

abbrev pub tr4 : Goto Action
tr4 = tr (request_method ∷ []) 3

abbrev pub tr6 : Goto Action
tr6 = tr (mark ∷ []) 4

abbrev pub tr7 : Goto Action
tr7 = tr (mark ∷ []) 24

abbrev pub tr8 : Goto Action
tr8 = tr (mark ∷ []) 34

abbrev pub tr9 : Goto Action
tr9 = tr (request_uri ∷ []) 5

abbrev pub tr10 : Goto Action
tr10 = tr (request_uri ∷ []) 20

abbrev pub tr11 : Goto Action
tr11 = tr (mark ∷ []) 6

abbrev pub tr19 : Goto Action
tr19 = tr (http_version ∷ []) 14

abbrev pub tr20 : Goto Action
tr20 = tr (http_version ∷ []) 19

abbrev pub tr21 : Goto Action
tr21 = fbreak (done ∷ []) 95

abbrev pub tr23 : Goto Action
tr23 = tr (start_field ∷ []) 16

abbrev pub tr25 : Goto Action
tr25 = tr (write_field ∷ []) 17

abbrev pub tr26 : Goto Action
tr26 = tr (start_value ∷ []) 18

abbrev pub tr27 : Goto Action
tr27 = tr (start_value ∷ write_value ∷ []) 14

abbrev pub tr28 : Goto Action
tr28 = tr (start_value ∷ write_value ∷ []) 19

abbrev pub tr29 : Goto Action
tr29 = tr (start_value ∷ []) 17

abbrev pub tr31 : Goto Action
tr31 = tr (write_value ∷ []) 14

abbrev pub tr32 : Goto Action
tr32 = tr (write_value ∷ []) 19

abbrev pub tr34 : Goto Action
tr34 = tr (mark ∷ []) 21

abbrev pub tr35 : Goto Action
tr35 = tr (mark ∷ fragment ∷ []) 5

abbrev pub tr36 : Goto Action
tr36 = tr (mark ∷ []) 22

abbrev pub tr38 : Goto Action
tr38 = tr (fragment ∷ []) 5

abbrev pub tr42 : Goto Action
tr42 = tr (request_path ∷ request_uri ∷ []) 5

abbrev pub tr43 : Goto Action
tr43 = tr (request_path ∷ request_uri ∷ []) 20

abbrev pub tr45 : Goto Action
tr45 = tr (request_path ∷ []) 27

abbrev pub tr46 : Goto Action
tr46 = tr (request_path ∷ []) 30

abbrev pub tr52 : Goto Action
tr52 = tr (start_query ∷ []) 31

abbrev pub tr53 : Goto Action
tr53 = tr (start_query ∷ query_string ∷ request_uri ∷ []) 5

abbrev pub tr54 : Goto Action
tr54 = tr (start_query ∷ query_string ∷ request_uri ∷ []) 20

abbrev pub tr55 : Goto Action
tr55 = tr (start_query ∷ []) 32

abbrev pub tr57 : Goto Action
tr57 = tr (query_string ∷ request_uri ∷ []) 5

abbrev pub tr58 : Goto Action
tr58 = tr (query_string ∷ request_uri ∷ []) 20

abbrev pub tr106 : Goto Action
tr106 = fbreak (socket ∷ done ∷ []) 95

abbrev pub tr108 : Goto Action
tr108 = tr (request_path ∷ []) 84

abbrev pub tr110 : Goto Action
tr110 = tr (request_path ∷ []) 88

abbrev pub tr111 : Goto Action
tr111 = tr (request_path ∷ []) 91

abbrev pub tr113 : Goto Action
tr113 = fbreak (json ∷ done ∷ []) 96

abbrev pub tr119 : Goto Action
tr119 = tr (start_query ∷ []) 92

abbrev pub tr120 : Goto Action
tr120 = tr (start_query ∷ query_string ∷ request_path ∷ []) 84

abbrev pub tr121 : Goto Action
tr121 = tr (start_query ∷ []) 93

abbrev pub tr123 : Goto Action
tr123 = tr (query_string ∷ request_path ∷ []) 84
