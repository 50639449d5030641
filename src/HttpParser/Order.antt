-- ===== src/HttpParser/Order.antt =====
-- The order in which `http_parser_execute` calls the callbacks.
use mongrel.Prelude.{
  ℕ, ◌≡◌, refl, sym, ◌∙◌, subst, Bool, true, false, ◌&&◌, ◌||◌, some, List, [], ◌∷◌, ◌++◌, length,
  leb, arith, some-injective,
}
use mongrel.Ragel.Walk.{all_labels}
use mongrel.Ragel.Phases.{
  Phases, ArePhases, ordered, leads, ends, all_called, IsOrdered, run-IsOrdered,
}
use mongrel.HttpParser.{
  Call, request_method, request_uri, fragment, request_path, query_string, http_version,
  header_done, http_field, HttpParser, Action, act,
}
use mongrel.HttpParser.Cases.{table}
use mongrel.HttpParser.Execute.{first_final, init, execute, scan, after, is_finished}
use mongrel.HttpParser.Answers.{execute-nil, execute-answer}

-- What the calls so far make of a request: `method`, then `path` and `query` as far as the target has
-- them, `uri`, `fragment` if there is one, and `version` with its fields. A JSON message has its
-- path, which may be passed on before and behind its query.
pub data Phase : Type 0 where
  fresh method path query uri with_fragment version json json_query complete wrong : Phase

-- a callback
pub data Callback : Type 0 where
  on_method on_uri on_fragment on_path on_query on_version on_done on_field : Callback

pub callback : Call → Callback
callback (request_method s) = on_method
callback (request_uri s) = on_uri
callback (fragment s) = on_fragment
callback (request_path s) = on_path
callback (query_string s) = on_query
callback (http_version s) = on_version
callback (header_done s) = on_done
callback (http_field s t) = on_field

pub follow : Phase → Callback → Phase
follow fresh on_method = method
follow fresh on_path = json
follow fresh on_done = complete
follow method on_path = path
follow method on_uri = uri
follow path on_query = query
follow path on_uri = uri
follow query on_uri = uri
follow uri on_fragment = with_fragment
follow uri on_version = version
follow with_fragment on_version = version
follow version on_field = version
follow version on_done = complete
follow json on_path = json
follow json on_query = json_query
follow json on_done = complete
follow json_query on_path = json
follow _ c = wrong

unfoldable pub phases : Phase → List Call → Phase
unfolding follow callback
phases f [] = f
phases f (c ∷ l) = phases (follow f (callback c)) l

phases-snoc :
    (f : Phase) (l : List Call) (c : Call)
    → phases f (l ++ c ∷ []) ≡ follow (phases f l) (callback c)
unfolding phases
phases-snoc f [] c = refl
phases-snoc f (d ∷ l) c = phases-snoc (follow f (callback d)) l c

abbrev pub is_complete : Phase → Bool
is_complete complete = true
is_complete f = false

abbrev pub is_wrong : Phase → Bool
is_wrong wrong = true
is_wrong f = false

abbrev between : ℕ → ℕ → ℕ → Bool
between a b n = leb a n && leb n b

-- the phases that a state of the table stands for
allows : ℕ → Phase → Bool
allows n fresh = between 1 2 n || between 41 83 n || between 86 87 n
allows n method = between 3 4 n || between 24 26 n || between 34 40 n
allows n path = between 27 33 n
allows n uri = between 5 13 n || between 20 23 n
allows n with_fragment = between 5 13 n
allows n version = between 14 19 n
allows n json = between 84 85 n || between 88 94 n
allows n f = false

-- what an action calls
called : Action → Phase → Phase
unfolding follow
called Action.request_method f = follow f on_method
called Action.request_uri f = follow f on_uri
called Action.fragment f = follow f on_fragment
called Action.query_string f = follow f on_query
called Action.http_version f = follow f on_version
called Action.request_path f = follow f on_path
called Action.write_value f = follow f on_field
called Action.done f = follow f on_done
called a f = f

for_all : (Phase → Bool) → Bool
for_all t =
    t fresh
    && t method
    && t path
    && t query
    && t uri
    && t with_fragment
    && t version
    && t json
    && t json_query
    && t complete
    && t wrong

for_all-true : (t : Phase → Bool) (f : Phase) → for_all t ≡ true → t f ≡ true
unfolding for_all
for_all-true t fresh h = ground (arith, h)
for_all-true t f h = ground (arith, h)

-- the states of the table and their phases
abbrev request_phases : Phases Action Phase
request_phases = record {
  allows = allows;
  called = called;
  is_complete = is_complete;
  is_wrong = is_wrong;
  first_final = first_final;
  for_all = for_all;
}

table-ordered : all_labels (ordered request_phases) table ≡ true
unfolding ordered leads ends all_called allows called for_all table all_labels
table-ordered = refl

abbrev phase_of : HttpParser → Phase
phase_of s = phases fresh s.calls

act-called :
    (pe : ℕ) (a : Action) (p : ℕ) (s : HttpParser) → phase_of (act pe a p s) ≡ called a (phase_of s)
unfolding act called callback
act-called pe Action.mark p s = refl
act-called pe Action.start_field p s = refl
act-called pe Action.write_field p s = refl
act-called pe Action.start_value p s = refl
act-called pe Action.start_query p s = refl
act-called pe Action.socket p s = refl
act-called pe Action.json p s = refl
act-called pe _ p s = phases-snoc fresh s.calls _

request_phases-ArePhases : ArePhases request_phases
unfolding allows
request_phases-ArePhases = record {
  for_all-true = for_all-true;
  allows-open = allows-open;
  complete_right = complete_right;
  late = refl;
}
  where
    allows-open :
        (n : ℕ) (f : Phase)
        → allows n f ≡ true
        → (is_wrong f ≡ false) × (is_complete f ≡ false) × (leb first_final n ≡ false)
    allows-open n fresh h = ground (arith, h)
    allows-open n f h = ground (arith, h)

    complete_right : (f : Phase) → is_complete f ≡ true → is_wrong f ≡ false
    complete_right complete h = refl
    complete_right f h = ground (arith, h)

-- Whatever the buffer holds: if one call of `http_parser_execute` on it from its start, behind
-- `http_parser_init`, fails no assertion, it has called the callbacks in the order of `follow`, as
-- far as it came: the method first, then the path and the query of the target, if it has them,
-- before the whole target, then the fragment, if there is one, the version, any fields, and
-- `header_done` once, as the last call; or `header_done` alone, or the calls of a JSON message, with
-- `header_done` as the last. And `header_done` has been called if and only if the parser is
-- finished then.
pub execute_calls_in_order :
    (q : HttpParser) (buffer : List ℕ) (n : ℕ) (parser : HttpParser)
    → execute (init q) buffer 0 ≡ some (n, parser)
    → (is_wrong (phases fresh parser.calls) ≡ false)
      × (is_finished parser ≡ is_complete (phases fresh parser.calls))
unfolding init phases after scan allows
execute_calls_in_order q [] n parser e =
    subst (λ z. IsOrdered request_phases z.1.cs (phase_of z.1))
      (some-injective (0, init q) (n, parser) (sym (execute-nil (init q)) ∙ e)) (refl, refl)
execute_calls_in_order q (c ∷ l) n parser e =
    subst (λ z. IsOrdered request_phases z.1.cs (phase_of z.1))
      (execute-answer (init q) c l 0 (omega arith) e)
      (run-IsOrdered request_phases (act (length (c ∷ l))) table request_phases-ArePhases phase_of
        (act-called (length (c ∷ l))) table-ordered (c ∷ l)
        (record { p = 0; cs = 1; parser = init q }) refl)
