-- ===== src/Dir/Requests.antt =====
-- Requests that find, serve and release files of src/dir.c, as steps in any order.
use mongrel.Prelude.{
  ℕ, ◌+◌, ◌<◌, ◌≡◌, refl, ap, ◌∙◌, pos, Bool, true, false, not, Option, none, some, List, [], ◌∷◌,
  ◌++◌, count, ◌==◌, if◌then◌else◌, arith,
}
use mongrel.Strings.{Bstring, Strings}
use mongrel.Tst.Insert.{is_prefix}
use mongrel.Cache.{Cache, create}
use mongrel.Cache.Holds.{cached, cached-create}
use mongrel.Dir.Files.{Files, FileRecord, Dir, Store}
use mongrel.Dir.Find.{
  release, use_file, lazy_normalize_base, cache_check, resolve_new, resolve_file, base_of,
}
use mongrel.Dir.Find.Users.{release_same, release-Tracks}
use mongrel.Dir.Find.Held.{refs, Counted, use_file-Counted}
use mongrel.Dir.Find.Keeps.{release-Keeps}
use mongrel.Dir.Find.Rooted.{Rooted, Keeps-Rooted, resolve_file-Rooted}
use mongrel.Dir.Find.Checks.{Checked, cache_check-Checked}
use mongrel.Dir.Find.Serving.{Served, resolve_new-Served, lazy_normalize_base-Counted}

-- `Dir_create` with a cache of `n + 1` file records, at `next` addresses given out so far
unfoldable pub start : {W : Type 0} → ℕ → W → (ℕ → FileRecord) → Store W
unfolding create
start n w heap = record {
  world = w;
  heap = heap;
  next = 0;
  cache = create n true;
  normalized_base = none;
  freed = [];
  closed = [];
}

module _ {W : Type 0} (o : Files W) (lib : Strings) (dir : Dir) where
  -- the requests that serve a file, after `Dir_resolve_file`
  abbrev pub serve : Option ℕ → List ℕ → List ℕ
  serve none held = held
  serve (some a) held = a ∷ held

  -- A request begins with `Dir_resolve_file`, and one that serves a file ends with
  -- `FileRecord_release`.
  pub data Step : List ℕ → Store W → List ℕ → Store W → Type 0 where
    begins :
        (pattern path : Bstring) (held : List ℕ) (s : Store W)
        → Step held s
            (serve (resolve_file o lib dir pattern path s).0 held)
            (resolve_file o lib dir pattern path s).1
    ends :
        (before after : List ℕ) (a : ℕ) (s : Store W)
        → Step (before ++ (a ∷ after)) s (before ++ after) (release a s)

  pub data Reach (n : ℕ) (w : W) (heap : ℕ → FileRecord) : List ℕ → Store W → Type 0 where
    starts : Reach n w heap [] (start n w heap)
    steps :
        {held held' : List ℕ} {s t : Store W}
        → Reach n w heap held s
        → Step held s held' t
        → Reach n w heap held' t

  Checked-Served :
      (pattern path : Bstring) (held : List ℕ) (r : Option ℕ × Store W)
      → Checked o lib dir held r
      → Served o lib dir held (elim r.0 [
        | some a ↦ (some a, use_file a r.1)
        | none ↦ resolve_new o lib dir (base_of o lib dir r.1.normalized_base) pattern path r.1
      ])
  Checked-Served pattern path held (none, s) h =
      resolve_new-Served o lib dir held (base_of o lib dir s.normalized_base) pattern path s h
  Checked-Served pattern path held (some a, s) (h, p) = use_file-Counted held a s (omega arith) h

  pub resolve_file-Served :
      (pattern path : Bstring) (held : List ℕ) (s : Store W)
      → Counted held s
      → Served o lib dir held (resolve_file o lib dir pattern path s)
  unfolding resolve_file
  resolve_file-Served pattern path held s h =
      split (lazy_normalize_base o lib dir s) (lazy_normalize_base-Counted o lib dir held s h)
    where
      split :
          (r : Bool × Store W)
          → Counted held r.1
          → Served o lib dir held (
              if not r.0
              then (none, r.1)
              else (let (f, t) = cache_check o lib dir path r.1 in
                  elim f [
                    | some a ↦ (some a, use_file a t)
                    | none ↦
                        resolve_new o lib dir (base_of o lib dir t.normalized_base) pattern path t
                  ]))
      split (false, t) k = k
      split (true, t) k =
          Checked-Served pattern path held (cache_check o lib dir path t)
            (cache_check-Checked o lib dir held path t k)

  Served-Counted :
      (held : List ℕ) (r : Option ℕ × Store W)
      → Served o lib dir held r
      → Counted (serve r.0 held) r.1
  Served-Counted held (none, s) h = h
  Served-Counted held (some a, s) h = h

  count-drop :
      (b a : ℕ) (before after : List ℕ)
      → count b (before ++ (a ∷ after)) ≡ count b (before ++ after) + (if a == b then 1 else 0)
  count-drop b a [] after = ground arith
  count-drop b a (c ∷ before) after = omega (arith, count-drop b a before after)

  pub release-Counted :
      (before after : List ℕ) (a : ℕ) (s : Store W)
      → Counted (before ++ (a ∷ after)) s
      → Counted (before ++ after) (release a s)
  release-Counted before after a s h =
      let (next, cache, base, world) = release_same a s in
      let q = refs (before ++ after) (release a s) in
      let kept = λ (b : ℕ). ap (cached b) cache in
      record {
        tracks =
            release-Tracks a (refs (before ++ (a ∷ after)) s) q s
              (λ b. omega (arith, count-drop b a before after, kept b)) h.tracks;
        evicts = ap (λ (c : Cache ℕ). c.evicts) cache ∙ h.evicts;
        settled = ap (λ (c : Cache ℕ). c.evicted) cache ∙ h.settled;
      }

  step-Counted :
      (held : List ℕ) (s : Store W) (held' : List ℕ) (t : Store W)
      → Step held s held' t
      → Counted held s
      → Counted held' t
  step-Counted _ _ _ _ (begins pattern path held s) h =
      Served-Counted held (resolve_file o lib dir pattern path s)
        (resolve_file-Served pattern path held s h)
  step-Counted _ _ _ _ (ends before after a s) h = release-Counted before after a s h

  pub start-Counted : (n : ℕ) (w : W) (heap : ℕ → FileRecord) → Counted [] (start n w heap)
  unfolding start create
  start-Counted n w heap = record {
    tracks = record {
      users_of = λ a h. ground arith;
      freed_of = λ a h. ground arith;
      unused = λ a h. (ground (arith, cached-create a n), refl);
    };
    evicts = refl;
    settled = refl;
  }

  Reach-Counted :
      (n : ℕ) (w : W) (heap : ℕ → FileRecord) (held : List ℕ) (s : Store W)
      → Reach n w heap held s
      → Counted held s
  Reach-Counted n w heap held s starts = start-Counted n w heap
  Reach-Counted n w heap held s (steps r step) =
      step-Counted _ _ _ _ step (Reach-Counted n w heap _ _ r)

  -- Whatever requests find, serve and release files in whatever order, from an empty cache of any
  -- size on: a file record that was ever made has one user for each request that serves it and one
  -- for each cell of the cache that holds it, and it has been freed once if it has no users, and not
  -- at all otherwise. So no request serves a freed file, and no file is freed twice.
  pub Reach-counts_users :
      (n : ℕ) (w : W) (heap : ℕ → FileRecord) (held : List ℕ) (s : Store W) (a : ℕ)
      → Reach n w heap held s
      → a < s.next
      → ((s.heap a).users ≡ pos (count a held + cached a s.cache))
        × (count a s.freed ≡ (if count a held + cached a s.cache == 0 then 1 else 0))
  Reach-counts_users n w heap held s a r l =
      let h = Reach-Counted n w heap held s r in (h.tracks.users_of a l, h.tracks.freed_of a l)

  step-Rooted :
      (held : List ℕ) (s : Store W) (held' : List ℕ) (t : Store W)
      → Step held s held' t
      → Rooted o lib dir s
      → Rooted o lib dir t
  step-Rooted _ _ _ _ (begins pattern path held s) h =
      resolve_file-Rooted o lib dir pattern path s h
  step-Rooted _ _ _ _ (ends before after a s) h =
      Keeps-Rooted o lib dir s (release a s) (release-Keeps a s) h

  start-Rooted : (n : ℕ) (w : W) (heap : ℕ → FileRecord) → Rooted o lib dir (start n w heap)
  unfolding start
  start-Rooted n w heap a l = absurd (omega arith)

  Reach-Rooted :
      (n : ℕ) (w : W) (heap : ℕ → FileRecord) (held : List ℕ) (s : Store W)
      → Reach n w heap held s
      → Rooted o lib dir s
  Reach-Rooted n w heap held s starts = start-Rooted n w heap
  Reach-Rooted n w heap held s (steps r step) =
      step-Rooted _ _ _ _ step (Reach-Rooted n w heap _ _ r)

  -- Every file record that any requests have made, in whatever order they begin and end, is of a path
  -- that `realpath` answered and that begins with the normalized base as it still is.
  pub Reach-stays_under_base :
      (n : ℕ) (w : W) (heap : ℕ → FileRecord) (held : List ℕ) (s : Store W) (a : ℕ)
      → Reach n w heap held s
      → a < s.next
      → (base : Bstring) × (s.normalized_base ≡ some base)
        × (is_prefix base (s.heap a).full_path ≡ true)
        × ((asked : Bstring) × (v : W) × ((o.realpath asked v).0 ≡ some (s.heap a).full_path))
  Reach-stays_under_base n w heap held s a r l =
      let (base, e, u) = Reach-Rooted n w heap held s r a l in
      (base, e, u.begins, (u.asked, u.world, u.real))
