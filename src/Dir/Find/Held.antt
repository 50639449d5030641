-- ===== src/Dir/Find/Held.antt =====
-- `Dir_resolve_file` of src/dir.c keeps the counts of the users.
use mongrel.Prelude.{
  ℕ, ◌+◌, ◌<◌, ◌≡◌, refl, sym, ap, ◌∙◌, pos, true, Option, List, [], ◌∷◌, count, ◌==◌,
  if◌then◌else◌, arith, subst,
}
use mongrel.Strings.{Bstring}
use mongrel.Cache.{Cache}
use mongrel.Cache.Holds.{cached}
use mongrel.Dir.Files.{Store}
use mongrel.Dir.Find.{release_all, with_cache, use_file}
use mongrel.Dir.Find.Users.{Tracks, Tracks-ext, release_same, release-Tracks}

module _ {W : Type 0} where
  -- the references to an address: by requests that are being served, and by the cache
  abbrev pub refs : List ℕ → Store W → ℕ → ℕ
  refs held s a = count a held + cached a s.cache

  pub record Counted (held : List ℕ) (s : Store W) : Type 0 where
    pub tracks : Tracks (refs held s) s
    pub evicts : s.cache.evicts ≡ true
    pub settled : s.cache.evicted ≡ []

  release_all-Tracks :
      (l : List ℕ) (r q : ℕ → ℕ) (s : Store W)
      → ((b : ℕ) → q b + count b l ≡ r b)
      → Tracks r s
      → Tracks q (release_all l s) × ((release_all l s).cache ≡ s.cache)
  unfolding release_all
  release_all-Tracks [] r q s e t = (Tracks-ext r q s (λ b. omega (arith, e b)) t, refl)
  release_all-Tracks (a ∷ l) r q s e t =
      let m : ℕ → ℕ = λ b. q b + (if a == b then 1 else 0) in
      let (mid, kept) = release_all-Tracks l r m s (λ b. omega (arith, e b)) t in
      (
        release-Tracks a m q (release_all l s) (λ b. refl) mid,
        (release_same a (release_all l s)).1 ∙ kept,
      )

  -- A call of the cache that evicts what it no longer holds.
  pub with_cache-Counted :
      (held : List ℕ) (r : ℕ → ℕ) (c : Cache ℕ) (s : Store W)
      → c.evicts ≡ true
      → ((a : ℕ) → count a held + cached a c + count a c.evicted ≡ r a)
      → Tracks r s
      → Counted held (with_cache c s)
  unfolding with_cache
  with_cache-Counted held r c s v e t =
      let c' = record c { evicted = [] } in
      let s' = record s { cache = c' } in
      let t' : Tracks r s' = record {
        users_of = t.users_of;
        freed_of = t.freed_of;
        unused = t.unused;
      } in
      let (done, kept) = release_all-Tracks c.evicted r (λ a. count a held + cached a c') s' e t' in
      record {
        tracks = Tracks-ext _ _ _ (λ a. ap (λ (x : Cache ℕ). count a held + cached a x) kept) done;
        evicts = ap (λ (x : Cache ℕ). x.evicts) kept ∙ v;
        settled = ap (λ (x : Cache ℕ). x.evicted) kept;
      }

  -- A change of what is not counted.
  pub same-Counted :
      (held : List ℕ) (s t : Store W)
      → ((a : ℕ) → (t.heap a).users ≡ (s.heap a).users)
      → t.next ≡ s.next
      → t.freed ≡ s.freed
      → ((a : ℕ) → cached a t.cache ≡ cached a s.cache)
      → t.cache.evicts ≡ s.cache.evicts
      → t.cache.evicted ≡ s.cache.evicted
      → Counted held s
      → Counted held t
  same-Counted held s t u n f c v e h = record {
    tracks = record {
      users_of = λ a l.
          u a
          ∙ h.tracks.users_of a (subst (λ k. a < k) n l)
          ∙ ap (λ k. pos (count a held + k)) (sym (c a));
      freed_of = λ a l. ground (arith, h.tracks.freed_of a, c a, ap (count a) f);
      unused = λ a l. ground (arith, h.tracks.unused a, c a, ap (count a) f);
    };
    evicts = v ∙ h.evicts;
    settled = e ∙ h.settled;
  }

  pub use_file-Counted :
      (held : List ℕ) (a : ℕ) (s : Store W)
      → 0 < refs held s a
      → Counted held s
      → Counted (a ∷ held) (use_file a s)
  unfolding use_file
  use_file-Counted held a s p h = record {
    tracks = record {
      users_of = λ b l. ground (arith, h.tracks.users_of b l, h.tracks.users_of a);
      freed_of = λ b l. ground (arith, h.tracks.freed_of b l);
      unused = λ b l. ground (arith, h.tracks.unused b l);
    };
    evicts = h.evicts;
    settled = h.settled;
  }

  pub world-Counted :
      (held : List ℕ) (w : W) (b : Option Bstring) (s : Store W)
      → Counted held s
      → Counted held (record s { world = w; normalized_base = b })
  world-Counted held w b s h = same-Counted held s _ (λ a. refl) refl refl (λ a. refl) refl refl h
