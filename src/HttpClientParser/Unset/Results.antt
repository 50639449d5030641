-- ===== src/HttpClientParser/Unset/Results.antt =====
-- What `httpclient_parser_execute` of src/http11/httpclient_parser.c returns for any set of callbacks,
-- beside what it returns where every call is kept.
use mongrel.Prelude.{
  ℕ, ℤ, ◌≡◌, refl, ap, ◌∙◌, Bool, ◌&&◌, Option, none, some, List, length, leb, ◌==◌, if◌then◌else◌,
  Bool-cases, inl, inr, ltb, ◌+◌,
}
use mongrel.Ragel.{run}
use mongrel.HttpClientParser.{Callbacks, HttpClientParser}
use mongrel.HttpClientParser.Unset.{hearing, reach, run-reach}
use mongrel.HttpClientParser.Cases.{table}
use mongrel.HttpClientParser.Execute.{execute, scan, after, returned}

-- the parser with a set of callbacks, in a result
abbrev pub hearing_result : Callbacks → Option ℕ × HttpClientParser → Option ℕ × HttpClientParser
hearing_result set z = (z.0, hearing set z.1)

returned-hearing :
    (set : Callbacks) (len : ℕ) (s : HttpClientParser)
    → returned len (hearing set s) ≡ hearing_result set (returned len s)
returned-hearing set len s = elim (Bool-cases (s.body_start == 0)) [
  | inl e ↦ rw e (by_bounds s (s))
  | inr e ↦ rw e (by_bounds s (record s { nread = s.nread + 1 }))
]
  where
    by_bounds :
        (s t : HttpClientParser)
        → ◌≡◌ {A = Option ℕ × HttpClientParser}
            (if ltb s.mark len && leb s.field_len len && ltb s.field_start len
              then (some t.nread, hearing set t)
              else (none, hearing set s))
            (hearing_result set (
              if ltb s.mark len && leb s.field_len len && ltb s.field_start len
              then (some t.nread, t)
              else (none, s)))
    by_bounds s t =
        elim (Bool-cases (ltb s.mark len && leb s.field_len len && ltb s.field_start len)) [
          | inl e ↦ rw e refl
          | inr e ↦ rw e refl
        ]

module _ (strtol : List ℕ → ℕ → ℤ) (buffer : List ℕ) where
  -- the parser behind a scan of the buffer that keeps every call
  abbrev pub whole : HttpClientParser → HttpClientParser
  whole s =
      after strtol 0
        (run (reach strtol buffer) table buffer (record { p = 0; cs = s.cs; parser = s }))

  abbrev pub accepts : ℕ → HttpClientParser → Bool
  accepts end s =
      leb 0 (length buffer)
      && (end == 128)
      && leb s.nread (length buffer)
      && leb s.body_start (length buffer)

  pub execute-hearing :
      (set : Callbacks) (s : HttpClientParser) (end : ℕ)
      → execute strtol (hearing set s) buffer end 0 ≡ (
          if accepts end (whole s)
          then some (hearing_result set (returned (length buffer) (whole s)))
          else none)
  unfolding execute scan after
  execute-hearing set s end =
      ap
        (λ m.
          let next = after strtol 0 m in
          if accepts end next then some (returned (length buffer) next) else none)
        (run-reach strtol buffer set table buffer (record { p = 0; cs = s.cs; parser = s }))
      ∙ ap (λ r. if accepts end (whole s) then some r else none)
          (returned-hearing set (length buffer) (whole s))
