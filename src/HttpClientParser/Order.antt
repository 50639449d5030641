-- ===== src/HttpClientParser/Order.antt =====
-- The order in which `httpclient_parser_execute` calls the callbacks.
use mongrel.Prelude.{
  ℕ, ℤ, ◌≡◌, refl, ap, ◌∙◌, subst, Bool, true, false, ◌&&◌, ◌||◌, Option, none, some, List, [], ◌∷◌,
  ◌++◌, length, leb, ◌==◌, if◌then◌else◌, arith, some-injective, Bool-cases, inl, inr, sym,
}
use mongrel.HttpParser.{Span, from}
use mongrel.Ragel.{drop}
use mongrel.Ragel.Walk.{all_labels}
use mongrel.Ragel.Phases.{
  Phases, ArePhases, ordered, leads, ends, all_called, IsOrdered, run-IsOrdered,
}
use mongrel.HttpClientParser.{
  Call, reason_phrase, status_code, chunk_size, http_version, header_done, last_chunk, http_field,
  HttpClientParser, Action, act, not_positive,
}
use mongrel.HttpClientParser.Unset.Results.{hearing_result, whole, accepts, execute-hearing}
use mongrel.HttpClientParser.Unset.{all_set, made, made-all_set, hearing, reach}
use mongrel.HttpClientParser.Cases.{table}
use mongrel.HttpClientParser.Execute.{first_final, init, execute, after, returned}

-- What the calls so far make of an answer: the version, the status and the reason, in this order, and
-- then its fields; or the size of a chunk, the last one's or another, and then its extensions.
pub data Phase : Type 0 where
  fresh version status response chunk complete wrong : Phase

-- a callback
pub data Callback : Type 0 where
  on_reason on_status on_size on_version on_done on_field : Callback

pub callback : Call → Callback
callback (reason_phrase s) = on_reason
callback (status_code s) = on_status
callback (chunk_size s) = on_size
callback (last_chunk s) = on_size
callback (http_version s) = on_version
callback (header_done s) = on_done
callback (http_field s t) = on_field

pub follow : Phase → Callback → Phase
follow fresh on_version = version
follow fresh on_size = chunk
follow version on_status = status
follow status on_reason = response
follow response on_field = response
follow response on_done = complete
follow chunk on_field = chunk
follow chunk on_done = complete
follow _ c = wrong

unfoldable pub phases : Phase → List Call → Phase
unfolding follow callback
phases f [] = f
phases f (c ∷ l) = phases (follow f (callback c)) l

phases-snoc :
    (f : Phase) (l : List Call) (c : Call)
    → phases f (l ++ c ∷ []) ≡ follow (phases f l) (callback c)
unfolding phases
phases-snoc f [] c = refl
phases-snoc f (d ∷ l) c = phases-snoc (follow f (callback d)) l c

abbrev pub is_complete : Phase → Bool
is_complete complete = true
is_complete f = false

abbrev pub is_wrong : Phase → Bool
is_wrong wrong = true
is_wrong f = false

abbrev between : ℕ → ℕ → ℕ → Bool
between a b n = leb a n && leb n b

-- the phases that a state of the table stands for
allows : ℕ → Phase → Bool
allows n fresh = between 1 2 n || between 8 15 n
allows n version = between 16 17 n
allows n status = between 18 19 n
allows n response = n == 3 || between 20 90 n
allows n chunk = between 3 7 n
allows n f = false

-- what an action calls
called : Action → Phase → Phase
unfolding follow
called Action.reason_phrase f = follow f on_reason
called Action.status_code f = follow f on_status
called Action.chunk_size f = follow f on_size
called Action.http_version f = follow f on_version
called Action.write_value f = follow f on_field
called Action.done f = follow f on_done
called a f = f

for_all : (Phase → Bool) → Bool
for_all t = t fresh && t version && t status && t response && t chunk && t complete && t wrong

for_all-true : (t : Phase → Bool) (f : Phase) → for_all t ≡ true → t f ≡ true
unfolding for_all
for_all-true t fresh h = ground (arith, h)
for_all-true t f h = ground (arith, h)

-- the states of the table and their phases
abbrev response_phases : Phases Action Phase
response_phases = record {
  allows = allows;
  called = called;
  is_complete = is_complete;
  is_wrong = is_wrong;
  first_final = first_final;
  for_all = for_all;
}

table-ordered : all_labels (ordered response_phases) table ≡ true
unfolding ordered leads ends all_called allows called for_all table all_labels
table-ordered = refl

abbrev phase_of : HttpClientParser → Phase
phase_of s = phases fresh s.calls

response_phases-ArePhases : ArePhases response_phases
unfolding allows
response_phases-ArePhases = record {
  for_all-true = for_all-true;
  allows-open = allows-open;
  complete_right = complete_right;
  late = refl;
}
  where
    allows-open :
        (n : ℕ) (f : Phase)
        → allows n f ≡ true
        → (is_wrong f ≡ false) × (is_complete f ≡ false) × (leb first_final n ≡ false)
    allows-open n fresh h = ground (arith, h)
    allows-open n f h = ground (arith, h)

    complete_right : (f : Phase) → is_complete f ≡ true → is_wrong f ≡ false
    complete_right complete h = refl
    complete_right f h = ground (arith, h)

callback-size :
    (last : Bool) (at : Span) → callback (if last then last_chunk at else chunk_size at) ≡ on_size
unfolding callback
callback-size true at = refl
callback-size false at = refl

returned-keeps :
    (len : ℕ) (s : HttpClientParser)
    → ((returned len s).1.calls ≡ s.calls) × ((returned len s).1.cs ≡ s.cs)
returned-keeps len s = ground arith

module _ (strtol : List ℕ → ℕ → ℤ) (buffer : List ℕ) where
  act-called :
      (a : Action) (p : ℕ) (s : HttpClientParser)
      → phase_of (reach strtol buffer a p s) ≡ called a (phase_of s)
  unfolding reach called callback act
  act-called Action.mark p s = refl
  act-called Action.start_field p s = refl
  act-called Action.write_field p s = refl
  act-called Action.start_value p s = refl
  act-called Action.write_content_len p s = refl
  act-called Action.trans_chunked p s = refl
  act-called Action.chunk_size p s =
      let at = from s.mark p in
      let last = not_positive (strtol (drop s.mark buffer) 16) in
      phases-snoc fresh s.calls (if last then last_chunk at else Call.chunk_size at)
      ∙ ap (follow (phases fresh s.calls)) (callback-size last at)
  act-called _ p s = phases-snoc fresh s.calls _

  -- what the calls come to if all are kept
  whole-IsOrdered :
      (q : HttpClientParser)
      → (let s = (returned (length buffer) (whole strtol buffer (init q))).1 in
          IsOrdered response_phases s.cs (phases fresh (made all_set s.calls)))
  unfolding init after phases allows
  whole-IsOrdered q =
      let (calls, cs) = returned-keeps (length buffer) (whole strtol buffer (init q)) in
      let r = (returned (length buffer) (whole strtol buffer (init q))).1 in
      let ran =
        run-IsOrdered response_phases (reach strtol buffer) table response_phases-ArePhases phase_of
          act-called table-ordered buffer (record { p = 0; cs = 1; parser = init q }) refl in
      subst (λ l. IsOrdered response_phases r.cs (phases fresh l)) (sym (made-all_set r.calls))
        (rw (calls, cs) ran)

  -- Whatever the buffer holds and whichever callbacks are set: if a call of
  -- `httpclient_parser_execute` on the buffer from its start, behind `httpclient_parser_init`, fails no
  -- assertion, be it that it returns -1, then with all callbacks set it returns the same and leaves the
  -- same parser, but that it has also made the calls of those that are not set (and calls `last_chunk`
  -- for a last chunk where `chunk_size` would be called for want of it). With all set the calls come
  -- in the order of `follow`: those of the version, the status and the reason, then any fields and
  -- `header_done` once, as the last call; or that of the size of a chunk, then any extensions and
  -- `header_done`. And `header_done` is among them if and only if the state is a final one, 91 or above.
  pub response_calls_in_order :
      (q : HttpClientParser) (end : ℕ) (n : Option ℕ) (parser : HttpClientParser)
      → execute strtol (init q) buffer end 0 ≡ some (n, parser)
      → (full : HttpClientParser) × (execute strtol (init (record q { set = all_set })) buffer end 0
          ≡ some (n, full))
        × (parser ≡ hearing q.set full)
        × (is_wrong (phases fresh full.calls) ≡ false)
        × (leb first_final parser.cs ≡ is_complete (phases fresh full.calls))
  unfolding init made
  response_calls_in_order q end n parser e =
      elim (Bool-cases (accepts strtol buffer end (whole strtol buffer (init q)))) [
        | inr bad ↦ absurd (no_answer bad)
        | inl ok ↦
            let (right, is_final) = whole-IsOrdered q in
            (
              hearing all_set result.1,
              execute-hearing strtol buffer all_set (init q) end
                  ∙ accepted ok
                  ∙ ap (λ m. some (m, hearing all_set result.1)) (ap (λ z. z.0) (got ok)),
              ap (λ z. z.1) (sym (got ok))
                  ∙ ap (λ l. record result.1 { set = q.set; calls = made q.set l })
                      (sym (made-all_set result.1.calls)),
              right,
              ap (λ z. leb first_final z.1.cs) (sym (got ok)) ∙ is_final,
            )
      ]
    where
      result : Option ℕ × HttpClientParser
      result = returned (length buffer) (whole strtol buffer (init q))

      accepted :
          {b : Bool} {z : Option ℕ × HttpClientParser}
          → b ≡ true
          → (if b then some z else none) ≡ some z
      accepted h = rw h refl

      no_answer : accepts strtol buffer end (whole strtol buffer (init q)) ≡ false → ⊥
      no_answer bad =
          (ground (arith, bad, sym e ∙ execute-hearing strtol buffer q.set (init q) end))

      got :
          accepts strtol buffer end (whole strtol buffer (init q)) ≡ true
          → hearing_result q.set result ≡ (n, parser)
      got ok =
          some-injective _ _
            (sym (accepted ok) ∙ sym (execute-hearing strtol buffer q.set (init q) end) ∙ e)
