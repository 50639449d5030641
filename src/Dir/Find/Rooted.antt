-- ===== src/Dir/Find/Rooted.antt =====
-- `Dir_resolve_file` of src/dir.c makes file records of files under the base only.
use mongrel.Prelude.{
  ℕ, ◌+◌, ◌<◌, ◌≡◌, refl, sym, ap, ◌∙◌, succ_ℤ, Bool, true, false, not, ◌&&◌, Option, none, some,
  ltb, ◌==◌, if◌then◌else◌, length, arith, update, subst, Bool-cases, inl, inr,
}
use mongrel.Strings.{Bstring, Strings}
use mongrel.Tst.Insert.{is_prefix}
use mongrel.Cache.{add}
use mongrel.Dir.Files.{Files, FileRecord, Dir, Store}
use mongrel.Dir.Find.{
  with_cache, use_file, lazy_normalize_base, find_file, cache_check, target_of, prefix_of,
  starts_with_slash, open_target, resolve_new, resolve_file, base_of,
}
use mongrel.Dir.Find.Keeps.{Keeps, with_cache-Keeps, use_file-Keeps, cache_check-Keeps}
use mongrel.Dir.Find.Serving.{Same, Found, find_file-Found}

module _ {W : Type 0} (o : Files W) (lib : Strings) (dir : Dir) where
  -- a path that `realpath` answered and that begins with the base
  pub record Under (base path : Bstring) : Type 0 where
    pub begins : is_prefix base path ≡ true
    pub asked : Bstring
    pub world : W
    pub real : (o.realpath asked world).0 ≡ some path

  -- the paths of all file records, and the base that there is when one is made
  abbrev pub Rooted : Store W → Type 0
  Rooted s =
      (a : ℕ)
      → a < s.next
      → (base : Bstring) × (s.normalized_base ≡ some base) × Under base (s.heap a).full_path

  pub Keeps-Rooted : (s t : Store W) → Keeps s t → Rooted s → Rooted t
  Keeps-Rooted s t k h a l =
      let (base, e, u) = h a (subst (λ n. a < n) k.next l) in
      (base, k.base ∙ e, subst (Under base) (sym (k.path a)) u)

  -- if `Dir_lazy_normalize_base` succeeds, there is a base
  abbrev Left : Bool × Store W → Type 0
  Left r = Rooted r.1 × (r.0 ≡ true → (base : Bstring) × (r.1.normalized_base ≡ some base))

  lazy_normalize_base-Rooted : (s : Store W) → Rooted s → Left (lazy_normalize_base o lib dir s)
  unfolding lazy_normalize_base
  lazy_normalize_base-Rooted s h = split s.normalized_base (o.realpath dir.base s.world) refl
    where
      split :
          (b : Option Bstring) (r : Option Bstring × W)
          → s.normalized_base ≡ b
          → Left (elim b [
            | some c ↦ (true, s)
            | none ↦ elim r.0 [
              | none ↦ (false, record s { world = r.1; normalized_base = some dir.base })
              | some c ↦ (true, record s { world = r.1; normalized_base = some c })
            ]
          ])
      split (some b) r k = (h, λ t. (b, k))
      split none (none, w) k =
          (λ a l. let (base, e, u) = h a l in absurd (ground arith), λ t. (dir.base, refl))
      split none (some b, w) k =
          (λ a l. let (base, e, u) = h a l in absurd (ground arith), λ t. (b, refl))

  Found-Keeps : (s t : Store W) → Same o lib dir s t → Keeps s t
  Found-Keeps s t (heap, next, cache, freed, base) = record {
    next = next;
    path = λ a. ap (λ (f : ℕ → FileRecord). (f a).full_path) heap;
    base = base;
  }

  abbrev After : Option ℕ × Store W → Type 0
  After r = Rooted r.1

  new-Rooted :
      (target path : Bstring) (base : Bstring) (file : FileRecord) (s : Store W)
      → Rooted s
      → s.normalized_base ≡ some base
      → Under base target
      → file.full_path ≡ target
      → Rooted (record s {
        next = s.next + 1;
        heap =
            update s.heap s.next (record file { users = succ_ℤ file.users; request_path = path });
      })
  new-Rooted target path base file s h e u f a l = elim (Bool-cases (a == s.next)) [
    | inl p ↦ (base, e, subst (Under base) (ground (arith, f)) u)
    | inr n ↦
        let (base', e', u') = h a (ground arith) in
        (base', e', subst (Under base') (ground arith) u')
  ]

  laid-Rooted :
      (target path : Bstring) (base : Bstring) (file : FileRecord) (s : Store W)
      → Rooted s
      → s.normalized_base ≡ some base
      → Under base target
      → file.full_path ≡ target
      → Rooted (
          with_cache (add s.next s.cache) (record s {
            next = s.next + 1;
            heap =
                update s.heap s.next
                  (record file { users = succ_ℤ file.users; request_path = path });
          }))
  laid-Rooted target path base file s h e u f =
      Keeps-Rooted _ _ (with_cache-Keeps (add s.next s.cache) _)
        (new-Rooted target path base file s h e u f)

  open_target-Rooted :
      (base target path : Bstring) (s : Store W)
      → Rooted s
      → s.normalized_base ≡ some base
      → Under base target
      → After (open_target o lib dir target path s)
  unfolding open_target
  open_target-Rooted base target path s h e u =
      split (find_file o lib dir target s) (find_file-Found o lib dir target s)
    where
      split :
          (r : Option FileRecord × Store W)
          → Found o lib dir target s r
          → After (elim r.0 [
            | none ↦ (none, r.1)
            | some file ↦ (
              some r.1.next,
              with_cache (add r.1.next r.1.cache) (record r.1 {
                next = r.1.next + 1;
                heap =
                    update r.1.heap r.1.next
                      (record file { users = succ_ℤ file.users; request_path = path });
              }),
            )
          ])
      split (none, t) f = Keeps-Rooted s t (Found-Keeps s t f) h
      split (some file, t) (same, one, full) =
          laid-Rooted target path base file t (Keeps-Rooted s t (Found-Keeps s t same) h)
            ((Found-Keeps s t same).base ∙ e) u full

  resolve_new-Rooted :
      (base pattern path : Bstring) (s : Store W)
      → Rooted s
      → s.normalized_base ≡ some base
      → After (resolve_new o lib dir base pattern path s)
  unfolding resolve_new
  resolve_new-Rooted base pattern path s h e =
      split (starts_with_slash prefix && ltb (length prefix) dir.max_dir_path)
        (o.realpath asked s.world) refl
    where
      prefix : Bstring
      prefix = prefix_of o lib dir pattern

      asked : Bstring
      asked = target_of o lib dir base prefix path

      split :
          (good : Bool) (r : Option Bstring × W)
          → (o.realpath asked s.world).0 ≡ r.0
          → After (
              if good
              then (elim r.0 [
                | none ↦ (none, record s { world = r.1 })
                | some target ↦
                    if is_prefix base target
                    then open_target o lib dir target path (record s { world = r.1 })
                    else (none, record s { world = r.1 })
              ])
              else (none, s))
      split false r real = h
      split true (none, w) real = h
      split true (some target, w) real = within (is_prefix base target) refl
        where
          within :
              (b : Bool)
              → is_prefix base target ≡ b
              → After (
                  if b
                  then open_target o lib dir target path (record s { world = w })
                  else (none, record s { world = w }))
          within true begins =
              open_target-Rooted base target path (record s { world = w }) h e
                (record { begins = begins; asked = asked; world = s.world; real = real })
          within false begins = h

  checked-Rooted :
      (pattern path base : Bstring) (r : Option ℕ × Store W)
      → Rooted r.1
      → r.1.normalized_base ≡ some base
      → After (elim r.0 [
        | some a ↦ (some a, use_file a r.1)
        | none ↦ resolve_new o lib dir (base_of o lib dir r.1.normalized_base) pattern path r.1
      ])
  checked-Rooted pattern path base (none, s) h e =
      subst (λ b. After (resolve_new o lib dir (base_of o lib dir b) pattern path s)) (sym e)
        (resolve_new-Rooted base pattern path s h e)
  checked-Rooted pattern path base (some a, s) h e =
      Keeps-Rooted s (use_file a s) (use_file-Keeps a s) h

  pub resolve_file-Rooted :
      (pattern path : Bstring) (s : Store W)
      → Rooted s
      → Rooted (resolve_file o lib dir pattern path s).1
  unfolding resolve_file
  resolve_file-Rooted pattern path s h =
      split (lazy_normalize_base o lib dir s) (lazy_normalize_base-Rooted s h)
    where
      split :
          (r : Bool × Store W)
          → Left r
          → After (
              if not r.0
              then (none, r.1)
              else (let (f, t) = cache_check o lib dir path r.1 in
                  elim f [
                    | some a ↦ (some a, use_file a t)
                    | none ↦
                        resolve_new o lib dir (base_of o lib dir t.normalized_base) pattern path t
                  ]))
      split (false, t) (k, e) = k
      split (true, t) (k, e) =
          let (base, b) = e refl in
          let kept = cache_check-Keeps o lib dir path t in
          checked-Rooted pattern path base (cache_check o lib dir path t) (Keeps-Rooted t _ kept k)
            (kept.base ∙ b)
