-- ===== src/HttpClientParser/Unset.antt =====
-- What is called of a parser of src/http11/httpclient_parser.c whose callbacks are not all set, beside
-- one whose callbacks are.
pub mod Results
use mongrel.Prelude.{
  ℕ, ◌+◌, ◌-◌, ℤ, ◌≡◌, refl, sym, ap, ◌∙◌, Bool, true, false, ◌&&◌, Option, none, some, List, [],
  ◌∷◌, ◌++◌, append-nil, append_assoc, length, if◌then◌else◌, arith, Bool-cases, inl, inr,
}
use mongrel.HttpParser.{Span, from}
use mongrel.Ragel.{Goto, st0, tr, fbreak, Machine, Switch, acts, drop, label, run}
use mongrel.HttpClientParser.{
  Call, reason_phrase, status_code, chunk_size, http_version, header_done, last_chunk, http_field,
  Callbacks, is_set, calling, HttpClientParser, Action, act, not_positive,
}

-- every callback is set
abbrev pub all_set : Callbacks
all_set = record {
  http_field = true;
  reason_phrase = true;
  status_code = true;
  chunk_size = true;
  http_version = true;
  header_done = true;
  last_chunk = true;
}

-- What is left of a call: the size of a last chunk goes to `chunk_size` where `last_chunk` is not set,
-- and a callback that is not set hears nothing.
abbrev pub heard : Callbacks → Call → List Call
heard set (last_chunk at) =
    if set.last_chunk then last_chunk at ∷ [] else if set.chunk_size then chunk_size at ∷ [] else []
heard set c = if is_set set c then c ∷ [] else []

unfoldable pub made : Callbacks → List Call → List Call
made set [] = []
made set (c ∷ l) = heard set c ++ made set l

made-snoc :
    (set : Callbacks) (l : List Call) (c : Call)
    → made set (l ++ c ∷ []) ≡ made set l ++ heard set c
unfolding made
made-snoc set [] c = append-nil (heard set c)
made-snoc set (d ∷ l) c =
    ap (λ k. heard set d ++ k) (made-snoc set l c)
    ∙ sym (append_assoc (heard set d) (made set l) (heard set c))

pub made-all_set : (l : List Call) → made all_set l ≡ l
unfolding made is_set
made-all_set [] = refl
made-all_set (reason_phrase a ∷ l) = ap (λ k. reason_phrase a ∷ k) (made-all_set l)
made-all_set (status_code a ∷ l) = ap (λ k. status_code a ∷ k) (made-all_set l)
made-all_set (chunk_size a ∷ l) = ap (λ k. chunk_size a ∷ k) (made-all_set l)
made-all_set (last_chunk a ∷ l) = ap (λ k. last_chunk a ∷ k) (made-all_set l)
made-all_set (http_version a ∷ l) = ap (λ k. http_version a ∷ k) (made-all_set l)
made-all_set (header_done a ∷ l) = ap (λ k. header_done a ∷ k) (made-all_set l)
made-all_set (http_field a b ∷ l) = ap (λ k. http_field a b ∷ k) (made-all_set l)

-- the parser with these callbacks set, where `s` has kept what it would call with all of them
abbrev pub hearing : Callbacks → HttpClientParser → HttpClientParser
hearing set s = record s { set = set; calls = made set s.calls }

-- a call that is kept in any case
abbrev keep : Call → HttpClientParser → HttpClientParser
keep c s = record s { calls = s.calls ++ c ∷ [] }

abbrev proper : Call → Bool
proper (last_chunk at) = false
proper c = true

-- what a set of callbacks hears of a call that is not the size of a last chunk
if_set : Callbacks → Call → List Call
if_set set c = if is_set set c then c ∷ [] else []

heard-if_set : (set : Callbacks) (c : Call) → proper c ≡ true → heard set c ≡ if_set set c
unfolding if_set
heard-if_set set (last_chunk at) h = ground arith
heard-if_set set c h = refl

calling-if_set :
    (c : Call) (s : HttpClientParser) → calling c s ≡ record s { calls = s.calls ++ if_set s.set c }
unfolding calling if_set
calling-if_set c s = elim (Bool-cases (is_set s.set c)) [
  | inl e ↦ rw e refl
  | inr e ↦ rw e (ap (λ l. record s { calls = l }) (sym (append-nil s.calls)))
]

hearing-calling :
    (set : Callbacks) (c d : Call) (s : HttpClientParser)
    → if_set set d ≡ heard set c
    → calling d (hearing set s) ≡ hearing set (keep c s)
hearing-calling set c d s h =
    calling-if_set d (hearing set s)
    ∙ ap (λ l. record s { set = set; calls = l })
        (ap (λ l. made set s.calls ++ l) h ∙ sym (made-snoc set s.calls c))

hearing-keep :
    (set : Callbacks) (c : Call) (s : HttpClientParser)
    → proper c ≡ true
    → calling c (hearing set s) ≡ hearing set (keep c s)
hearing-keep set c s h = hearing-calling set c c s (sym (heard-if_set set c h))

module _ (strtol : List ℕ → ℕ → ℤ) (buffer : List ℕ) where
  -- the call of `chunk_size` in any case
  keep_size : ℕ → HttpClientParser → HttpClientParser
  keep_size p s =
      let size = strtol (drop s.mark buffer) 16 in
      let at = from s.mark p in
      keep (if not_positive size then last_chunk at else chunk_size at)
        (record s { chunked = true; content_len = size; chunks_done = not_positive size })

  -- the actions, as `act` does them, but with every call kept
  unfoldable pub reach : Action → ℕ → HttpClientParser → HttpClientParser
  unfolding keep_size
  reach Action.write_value p s = keep (http_field (s.field_start, s.field_len) (from s.mark p)) s
  reach Action.reason_phrase p s = keep (reason_phrase (from s.mark p)) s
  reach Action.status_code p s =
      keep (status_code (from s.mark p)) (record s { status = strtol (drop s.mark buffer) 10 })
  reach Action.http_version p s = keep (http_version (from s.mark p)) s
  reach Action.chunk_size p s = keep_size p s
  reach Action.done p s =
      keep (header_done (p + 1, length buffer - p - 1)) (record s { body_start = p + 1 })
  reach a p s = act strtol buffer a p s

  size_heard :
      (set : Callbacks) (last : Bool) (at : Span)
      → if_set set (if last && set.last_chunk then last_chunk at else chunk_size at)
        ≡ heard set (if last then last_chunk at else chunk_size at)
  unfolding if_set is_set
  size_heard set last at = ground arith

  act-reach :
      (set : Callbacks) (a : Action) (p : ℕ) (s : HttpClientParser)
      → act strtol buffer a p (hearing set s) ≡ hearing set (reach a p s)
  unfolding act reach
  act-reach set Action.mark p s = refl
  act-reach set Action.start_field p s = refl
  act-reach set Action.write_field p s = refl
  act-reach set Action.start_value p s = refl
  act-reach set Action.write_content_len p s = refl
  act-reach set Action.trans_chunked p s = refl
  act-reach set Action.chunk_size p s =
      let size = strtol (drop s.mark buffer) 16 in
      let at = from s.mark p in
      let last = not_positive size in
      hearing-calling set (if last then last_chunk at else chunk_size at)
        (if last && set.last_chunk then last_chunk at else chunk_size at)
        (record s { chunked = true; content_len = size; chunks_done = last })
        (size_heard set last at)
  act-reach set Action.status_code p s =
      hearing-keep set (status_code (from s.mark p))
        (record s { status = strtol (drop s.mark buffer) 10 }) refl
  act-reach set Action.done p s =
      hearing-keep set (header_done (p + 1, length buffer - p - 1))
        (record s { body_start = p + 1 }) refl
  act-reach set _ p s = hearing-keep set _ s refl

  acts-reach :
      (set : Callbacks) (l : List Action) (p : ℕ) (s : HttpClientParser)
      → acts (act strtol buffer) l p (hearing set s) ≡ hearing set (acts reach l p s)
  unfolding acts
  acts-reach set [] p s = refl
  acts-reach set (a ∷ l) p s =
      ap (acts (act strtol buffer) l p) (act-reach set a p s) ∙ acts-reach set l p (reach a p s)

  -- the same of a machine
  abbrev pub hearing_in : Callbacks → Machine HttpClientParser → Machine HttpClientParser
  hearing_in set m = record m { parser = hearing set m.parser }

  pub run-reach :
      (set : Callbacks) (table : List (ℕ × Switch Action)) (rest : List ℕ)
      (m : Machine HttpClientParser)
      → run (act strtol buffer) table rest (hearing_in set m)
        ≡ hearing_in set (run reach table rest m)
  unfolding run
  run-reach set table [] m = refl
  run-reach set table (c ∷ rest) m = split (label table m.cs c) (run-reach set table rest)
    where
      split :
          (o : Option (Goto Action))
          → ((n : Machine HttpClientParser)
              → run (act strtol buffer) table rest (hearing_in set n)
                ≡ hearing_in set (run reach table rest n))
          → ◌≡◌ {A = Machine HttpClientParser}
              (elim o [
                | none ↦ record (hearing_in set m) { cs = 2 }
                | some st0 ↦ record (hearing_in set m) { cs = 0 }
                | some (tr l n) ↦ run (act strtol buffer) table rest (record {
                  p = m.p + 1;
                  cs = n;
                  parser = acts (act strtol buffer) l m.p (hearing set m.parser);
                })
                | some (fbreak l n) ↦ record {
                  p = m.p + 1;
                  cs = n;
                  parser = acts (act strtol buffer) l m.p (hearing set m.parser);
                }
              ])
              (hearing_in set (elim o [
                | none ↦ record m { cs = 2 }
                | some st0 ↦ record m { cs = 0 }
                | some (tr l n) ↦
                    run reach table rest
                      (record { p = m.p + 1; cs = n; parser = acts reach l m.p m.parser })
                | some (fbreak l n) ↦ record {
                  p = m.p + 1;
                  cs = n;
                  parser = acts reach l m.p m.parser;
                }
              ]))
      split none ih = refl
      split (some st0) ih = refl
      split (some (tr l n)) ih =
          ap (λ s. run (act strtol buffer) table rest (record { p = m.p + 1; cs = n; parser = s }))
            (acts-reach set l m.p m.parser)
          ∙ ih (record { p = m.p + 1; cs = n; parser = acts reach l m.p m.parser })
      split (some (fbreak l n)) ih =
          ap (λ s. record { p = m.p + 1; cs = n; parser = s }) (acts-reach set l m.p m.parser)
