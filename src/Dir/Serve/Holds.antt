-- ===== src/Dir/Serve/Holds.antt =====
-- `Dir_serve_file` of src/dir.c gives back the file that it found.
use mongrel.Prelude.{
  ℕ, ◌≡◌, refl, sym, ap, subst, some-injective, ℤ, pos, minus_one, Bool, true, false, ◌||◌, Option,
  none, some, List, [], ◌∷◌, text, if◌then◌else◌, arith,
}
use mongrel.Strings.{Bstring, Strings}
use mongrel.Request.{Headers, Request}
use mongrel.Dir.Files.{Files, FileRecord, Dir, Store}
use mongrel.Dir.Find.{resolve_file}
use mongrel.Dir.Find.Held.{Counted, world-Counted}
use mongrel.Dir.Find.Serving.{Served}
use mongrel.Dir.Requests.{resolve_file-Served, release-Counted}
use mongrel.Dir.Answer.{Reply, http_405, Clock, calculate_response}
use mongrel.Dir.Serve.{
  Socket, stream_file, send_file, send_header, send_status, release_found, serve_file, serve_found,
  is_method, is_length,
}
use mongrel.Dir.Serve.Sends.{stream_file-ends}

module _ {W : Type 0} (socket : Socket W) (block_size : ℕ) {H : Type 0} (o : Files W)
    (dict : Headers H) (lib : Strings) (clock : Clock) (version : Bstring) (dir : Dir) where
  abbrev ServedBy : List ℕ → Option ℕ → Store W → Type 0
  ServedBy held a s = Served o lib dir held (a, s)

  -- a call that returns, and leaves the counts right
  pub Returns : List ℕ → Option (ℤ × (Request H × Store W)) → Type 0
  Returns held r = (v : ℤ × (Request H × Store W)) × (r ≡ some v) × Counted held v.1.1

  release_found-Counted :
      (held : List ℕ) (a : Option ℕ) (s : Store W) (w : W)
      → ServedBy held a s
      → Counted held
          (release_found socket block_size o dict lib clock version dir a (record s { world = w }))
  release_found-Counted held none s w h = world-Counted held w s.normalized_base s h
  release_found-Counted held (some a) s w h =
      release-Counted o lib dir [] held a (record s { world = w })
        (world-Counted (a ∷ held) w s.normalized_base s h)

  abbrev Goes : Store W → Option (Bool × (Request H × Store W)) → Type 0
  Goes s x =
      (good : Bool) × (req : Request H) × (w : W) × (x ≡ some (good, (req, record s { world = w })))

  send_file-some :
      (is_get : Bool) (file : FileRecord) (req : Request H) (s : Store W)
      → Goes s (send_file socket block_size o dict lib clock version dir is_get file req s)
  unfolding send_file
  send_file-some false file req s = (_, _, (send_header socket block_size file s.world).1, refl)
  send_file-some true file req s =
      split (stream_file socket block_size file s.world)
        (stream_file-ends socket block_size file s.world)
    where
      split :
          (x : Option (ℤ × W))
          → (r : ℤ × W) × (x ≡ some r)
          → Goes s (elim x [
            | none ↦ none
            | some r ↦ some (
              is_length r.0 file.sb.size,
              (record req { response_size = r.0 }, record s { world = r.1 }),
            )
          ])
      split none (r, e) = absurd (ground arith)
      split (some r) e = (_, _, r.1, refl)

  sent-Returns :
      (held : List ℕ) (a : ℕ) (s : Store W) (x : Option (Bool × (Request H × Store W)))
      → ServedBy held (some a) s
      → Goes s x
      → Returns held (elim x [
        | none ↦ none
        | some v ↦ some (
          if v.0 then pos 0 else minus_one,
          (v.1.0, release_found socket block_size o dict lib clock version dir (some a) v.1.1),
        )
      ])
  unfolding Returns
  sent-Returns held a s none h (good, req, w, e) = absurd (ground arith)
  sent-Returns held a s (some v) h (good, req, w, e) = (
    _,
    refl,
    subst
        (λ t.
          Counted held (release_found socket block_size o dict lib clock version dir (some a) t))
        (sym (ap (λ (x : Bool × (Request H × Store W)). x.1.1) (some-injective _ _ e)))
        (release_found-Counted held (some a) s w h),
  )

  serve_found-Returns :
      (held : List ℕ) (a : Option ℕ) (is_get : Bool) (req : Request H) (s : Store W)
      → ServedBy held a s
      → Returns held (serve_found socket block_size o dict lib clock version dir is_get req a s)
  unfolding Returns serve_found calculate_response
  serve_found-Returns held none is_get req s h = (_, refl, release_found-Counted held none s _ h)
  serve_found-Returns held (some a) is_get req s h =
      answered (calculate_response dict lib clock version req (some (s.heap a)) (o.time s.world).0)
    where
      s' : Store W
      s' = record s { world = (o.time s.world).1 }

      answered :
          (c : Option Reply × Request H)
          → Returns held (elim c.0 [
            | some r ↦
                let (good, s2) = send_status socket block_size o dict lib clock version dir r s' in
                some (
                  if good then pos 0 else minus_one,
                  (c.1, release_found socket block_size o dict lib clock version dir (some a) s2),
                )
            | none ↦
                elim (send_file socket block_size o dict lib clock version dir is_get
                  (s.heap a)
                  c.1
                  s') [
                    | none ↦ none
                    | some v ↦ some (
                      if v.0 then pos 0 else minus_one,
                      (
                        v.1.0,
                        release_found socket block_size o dict lib clock version dir (some a) v.1.1,
                      ),
                    )
                  ]
          ])
      answered (some r, req') = (_, refl, release_found-Counted held (some a) s _ h)
      answered (none, req') = sent-Returns held a s _ h (send_file-some is_get (s.heap a) req' s')

  -- `Dir_serve_file` always returns, whatever the method, the conditions of the request and the sends
  -- are, and then every file record has as many users as before by the requests that are being served
  -- and the cache: the file that was found for this request is given back on every path.
  pub serve_file_gives_back :
      (held : List ℕ) (pattern path : Bstring) (req : Request H) (s : Store W)
      → Counted held s
      → Returns held (serve_file socket block_size o dict lib clock version dir pattern path req s)
  unfolding Returns serve_file
  serve_file_gives_back held pattern path req s h =
      split (is_method (text "GET") req.method || is_method (text "HEAD") req.method)
        (resolve_file-Served o lib dir pattern path held s h)
    where
      start : Request H
      start = record req { response_size = pos 0 }

      split :
          (good : Bool)
          → Served o lib dir held (resolve_file o lib dir pattern path s)
          → Returns held (
              if good
              then serve_found socket block_size o dict lib clock version dir
                  (is_method (text "GET") req.method)
                  start
                  (resolve_file o lib dir pattern path s).0
                  (resolve_file o lib dir pattern path s).1
              else some (
                minus_one,
                (
                  record start { status_code = 405 },
                  (send_status socket block_size o dict lib clock version dir http_405 s).1,
                ),
              ))
      split true k = serve_found-Returns held _ _ start _ k
      split false k = (_, refl, world-Counted held _ s.normalized_base s h)
