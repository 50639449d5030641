-- ===== src/HttpClientParser/Labels.antt =====
-- The labels `trN` of src/http11/httpclient_parser.c: their actions, and the state they lead to.
use mongrel.Prelude.{[], ◌∷◌}
use mongrel.Ragel.{Goto, tr, fbreak}
use mongrel.HttpClientParser.{
  Action, chunk_size, done, http_version, mark, reason_phrase, start_field, start_value,
  status_code, trans_chunked, write_content_len, write_field, write_value,
}

abbrev pub tr0 : Goto Action
tr0 = tr (mark ∷ []) 2

abbrev pub tr2 : Goto Action
tr2 = tr (mark ∷ []) 8

abbrev pub tr3 : Goto Action
tr3 = fbreak (chunk_size ∷ done ∷ []) 91

abbrev pub tr4 : Goto Action
tr4 = tr (chunk_size ∷ []) 3

abbrev pub tr6 : Goto Action
tr6 = tr (chunk_size ∷ []) 4

abbrev pub tr7 : Goto Action
tr7 = fbreak (done ∷ []) 91

abbrev pub tr8 : Goto Action
tr8 = tr (start_field ∷ []) 5

abbrev pub tr9 : Goto Action
tr9 = fbreak (write_field ∷ start_value ∷ write_value ∷ done ∷ []) 91

abbrev pub tr10 : Goto Action
tr10 = tr (write_field ∷ start_value ∷ write_value ∷ []) 3

abbrev pub tr12 : Goto Action
tr12 = tr (write_field ∷ start_value ∷ write_value ∷ []) 4

abbrev pub tr13 : Goto Action
tr13 = tr (write_field ∷ start_value ∷ []) 6

abbrev pub tr14 : Goto Action
tr14 = tr (start_value ∷ []) 7

abbrev pub tr15 : Goto Action
tr15 = fbreak (write_value ∷ done ∷ []) 91

abbrev pub tr16 : Goto Action
tr16 = tr (write_value ∷ []) 3

abbrev pub tr18 : Goto Action
tr18 = tr (write_value ∷ []) 4

abbrev pub tr26 : Goto Action
tr26 = tr (http_version ∷ []) 16

abbrev pub tr27 : Goto Action
tr27 = tr (mark ∷ []) 17

abbrev pub tr28 : Goto Action
tr28 = tr (status_code ∷ []) 18

abbrev pub tr30 : Goto Action
tr30 = tr (mark ∷ []) 19

abbrev pub tr32 : Goto Action
tr32 = tr (reason_phrase ∷ []) 20

abbrev pub tr33 : Goto Action
tr33 = tr (reason_phrase ∷ []) 24

abbrev pub tr35 : Goto Action
tr35 = tr (start_field ∷ []) 21

abbrev pub tr36 : Goto Action
tr36 = tr (start_field ∷ []) 25

abbrev pub tr37 : Goto Action
tr37 = tr (start_field ∷ []) 45

abbrev pub tr39 : Goto Action
tr39 = tr (write_field ∷ []) 22

abbrev pub tr40 : Goto Action
tr40 = tr (start_value ∷ []) 23

abbrev pub tr41 : Goto Action
tr41 = tr (start_value ∷ []) 22

abbrev pub tr42 : Goto Action
tr42 = tr (start_value ∷ write_value ∷ []) 20

abbrev pub tr43 : Goto Action
tr43 = tr (start_value ∷ write_value ∷ []) 24

abbrev pub tr45 : Goto Action
tr45 = tr (write_value ∷ []) 20

abbrev pub tr46 : Goto Action
tr46 = tr (write_value ∷ []) 24

abbrev pub tr61 : Goto Action
tr61 = tr (write_field ∷ []) 39

abbrev pub tr62 : Goto Action
tr62 = tr (start_value ∷ []) 39

abbrev pub tr63 : Goto Action
tr63 = tr (start_value ∷ write_value ∷ []) 40

abbrev pub tr64 : Goto Action
tr64 = tr (start_value ∷ write_value ∷ []) 89

abbrev pub tr65 : Goto Action
tr65 = tr (start_value ∷ []) 90

abbrev pub tr67 : Goto Action
tr67 = fbreak (done ∷ []) 92

abbrev pub tr69 : Goto Action
tr69 = tr (start_value ∷ start_field ∷ []) 44

abbrev pub tr70 : Goto Action
tr70 = tr (start_value ∷ []) 42

abbrev pub tr71 : Goto Action
tr71 = tr (write_content_len ∷ write_value ∷ []) 20

abbrev pub tr72 : Goto Action
tr72 = tr (write_content_len ∷ write_value ∷ []) 24

abbrev pub tr91 : Goto Action
tr91 = tr (write_field ∷ []) 62

abbrev pub tr92 : Goto Action
tr92 = tr (start_value ∷ []) 62

abbrev pub tr93 : Goto Action
tr93 = tr (start_value ∷ write_value ∷ []) 63

abbrev pub tr94 : Goto Action
tr94 = tr (start_value ∷ write_value ∷ []) 81

abbrev pub tr95 : Goto Action
tr95 = tr (start_value ∷ []) 82

abbrev pub tr97 : Goto Action
tr97 = fbreak (done ∷ []) 93

abbrev pub tr99 : Goto Action
tr99 = tr (start_value ∷ start_field ∷ []) 74

abbrev pub tr100 : Goto Action
tr100 = tr (start_value ∷ []) 65

abbrev pub tr107 : Goto Action
tr107 = tr (write_value ∷ trans_chunked ∷ []) 20

abbrev pub tr108 : Goto Action
tr108 = tr (write_value ∷ []) 72

abbrev pub tr109 : Goto Action
tr109 = tr (trans_chunked ∷ []) 20

abbrev pub tr124 : Goto Action
tr124 = tr (write_value ∷ write_content_len ∷ []) 20

abbrev pub tr125 : Goto Action
tr125 = tr (write_value ∷ write_content_len ∷ []) 24
