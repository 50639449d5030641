-- ===== src/Dir/Find/Serving.antt =====
-- `Dir_find_file` and `Dir_resolve_file` of src/dir.c keep the counts of the users.
use mongrel.Prelude.{
  ℕ, ◌+◌, ◌≡◌, ap, ◌∙◌, ℤ, pos, succ_ℤ, Bool, true, false, Option, none, some, List, ◌∷◌, ◌&&◌,
  length, count, ltb, ◌==◌, if◌then◌else◌, arith, update,
}
use mongrel.Strings.{Bstring, Strings}
use mongrel.Tst.Insert.{is_prefix}
use mongrel.Cache.{Cache, add}
use mongrel.Cache.Holds.{cached, add-cached, add-evicts}
use mongrel.Dir.Files.{Files, FileRecord, Dir, Store, Stat}
use mongrel.Dir.Find.{
  with_cache, lazy_normalize_base, describe, find_file, open_target, resolve_new, target_of,
  prefix_of, starts_with_slash,
}
use mongrel.Dir.Find.Held.{refs, Counted, world-Counted, with_cache-Counted, same-Counted}

module _ {W : Type 0} (o : Files W) (lib : Strings) (dir : Dir) where
  -- `Dir_find_file` changes no file record that there is.
  abbrev pub Same : Store W → Store W → Type 0
  Same s t =
      (t.heap ≡ s.heap)
      × (t.next ≡ s.next)
      × (t.cache ≡ s.cache)
      × (t.freed ≡ s.freed)
      × (t.normalized_base ≡ s.normalized_base)

  abbrev pub Found : Bstring → Store W → Option FileRecord × Store W → Type 0
  Found path s (none, t) = Same s t
  Found path s (some file, t) = Same s t × (file.users ≡ pos 1) × (file.full_path ≡ path)

  describe-Found :
      (path : Bstring) (sb : Stat) (fd : ℤ) (s : Store W)
      → Found path s (describe o lib dir path sb fd s)
  unfolding describe
  describe-Found path sb fd s = ground arith

  pub find_file-Found : (path : Bstring) (s : Store W) → Found path s (find_file o lib dir path s)
  unfolding find_file
  find_file-Found path s = ground arith

  -- what `Dir_resolve_file` leaves: its request serves the file that it answers
  abbrev pub Served : List ℕ → Option ℕ × Store W → Type 0
  Served held (none, s) = Counted held s
  Served held (some a, s) = Counted (a ∷ held) s

  laid-Counted :
      (held : List ℕ) (file : FileRecord) (path : Bstring) (s : Store W)
      → Counted held s
      → file.users ≡ pos 1
      → Counted (s.next ∷ held) (
          with_cache (add s.next s.cache) (record s {
            next = s.next + 1;
            heap =
                update s.heap s.next
                  (record file { users = succ_ℤ file.users; request_path = path });
          }))
  laid-Counted held file path s h u =
      let a = s.next in
      let held_by = λ (b : ℕ). add-cached b a s.cache h.evicts in
      let free = h.tracks.unused a (omega arith) in
      with_cache-Counted (a ∷ held) (λ b. refs held s b + (if a == b then 2 else 0)) (add a s.cache)
        _ (add-evicts a s.cache ∙ h.evicts) (λ b. ground (arith, held_by b, ap (count b) h.settled))
        (record {
          users_of = λ b l. ground (arith, h.tracks.users_of b, free, ap succ_ℤ u);
          freed_of = λ b l. ground (arith, h.tracks.freed_of b, free);
          unused = λ b l. ground (arith, h.tracks.unused b);
        })

  found-Counted : (held : List ℕ) (s t : Store W) → Same s t → Counted held s → Counted held t
  found-Counted held s t (heap, next, cache, freed, base) h =
      same-Counted held s t (λ a. ap (λ (f : ℕ → FileRecord). (f a).users) heap) next freed
        (λ a. ap (cached a) cache) (ap (λ (c : Cache ℕ). c.evicts) cache)
        (ap (λ (c : Cache ℕ). c.evicted) cache) h

  pub open_target-Served :
      (held : List ℕ) (target path : Bstring) (s : Store W)
      → Counted held s
      → Served held (open_target o lib dir target path s)
  unfolding open_target
  open_target-Served held target path s h =
      split (find_file o lib dir target s) (find_file-Found target s)
    where
      split :
          (r : Option FileRecord × Store W)
          → Found target s r
          → Served held (elim r.0 [
            | none ↦ (none, r.1)
            | some file ↦ (
              some r.1.next,
              with_cache (add r.1.next r.1.cache) (record r.1 {
                next = r.1.next + 1;
                heap =
                    update r.1.heap r.1.next
                      (record file { users = succ_ℤ file.users; request_path = path });
              }),
            )
          ])
      split (none, t) f = found-Counted held s t f h
      split (some file, t) (same, one, full) =
          laid-Counted held file path t (found-Counted held s t same h) one

  pub resolve_new-Served :
      (held : List ℕ) (base pattern path : Bstring) (s : Store W)
      → Counted held s
      → Served held (resolve_new o lib dir base pattern path s)
  unfolding resolve_new
  resolve_new-Served held base pattern path s h =
      split (starts_with_slash prefix && ltb (length prefix) dir.max_dir_path)
        (o.realpath (target_of o lib dir base prefix path) s.world)
    where
      prefix : Bstring
      prefix = prefix_of o lib dir pattern

      split :
          (good : Bool) (r : Option Bstring × W)
          → Served held (
              if good
              then (elim r.0 [
                | none ↦ (none, record s { world = r.1 })
                | some target ↦
                    if is_prefix base target
                    then open_target o lib dir target path (record s { world = r.1 })
                    else (none, record s { world = r.1 })
              ])
              else (none, s))
      split false r = h
      split true (none, w) = world-Counted held w s.normalized_base s h
      split true (some target, w) =
          let t = world-Counted held w s.normalized_base s h in
          within (is_prefix base target) t (open_target-Served held target path _ t)
        where
          within :
              (b : Bool)
              → Counted held (record s { world = w })
              → Served held (open_target o lib dir target path (record s { world = w }))
              → Served held (
                  if b
                  then open_target o lib dir target path (record s { world = w })
                  else (none, record s { world = w }))
          within true t k = k
          within false t k = t

  abbrev Left : List ℕ → Bool × Store W → Type 0
  Left held r = Counted held r.1

  pub lazy_normalize_base-Counted :
      (held : List ℕ) (s : Store W)
      → Counted held s
      → Counted held (lazy_normalize_base o lib dir s).1
  unfolding lazy_normalize_base
  lazy_normalize_base-Counted held s h = split s.normalized_base (o.realpath dir.base s.world)
    where
      split :
          (b : Option Bstring) (r : Option Bstring × W)
          → Left held (elim b [
            | some b ↦ (true, s)
            | none ↦ elim r.0 [
              | none ↦ (false, record s { world = r.1; normalized_base = some dir.base })
              | some b ↦ (true, record s { world = r.1; normalized_base = some b })
            ]
          ])
      split (some b) r = h
      split none (none, w) = world-Counted held w (some dir.base) s h
      split none (some b, w) = world-Counted held w (some b) s h
