-- ===== src/Dir/Find.antt =====
-- `Dir_find_file`, the users of a file record, `FileRecord_cache_check` and `Dir_resolve_file` of
-- src/dir.c.
pub mod Users
pub mod Held
pub mod Checks
pub mod Serving
pub mod Keeps
pub mod Rooted
use mongrel.Prelude.{
  ℕ, suc, ◌+◌, ◌-◌, ℤ, pos, negsuc, minus_one, pred_ℤ, succ_ℤ, Bool, true, false, not, ◌&&◌, ◌||◌,
  Option, none, some, List, [], ◌∷◌, ◌++◌, length, ltb, ◌==◌, if◌then◌else◌, update,
}
use mongrel.Strings.{Bstring, Strings, open_paren}
use mongrel.Tst.Insert.{same_key, is_prefix}
use mongrel.Cache.{Cache, lookup, add, evict_object}
use mongrel.Dir.Files.{Stat, Files, FileRecord, Dir, Store}

-- `FR_CACHE_TIME_TO_LIVE`
abbrev pub time_to_live : ℕ
time_to_live = 10

-- '/'
abbrev pub slash : ℕ
slash = 47 + 128

-- `bchar(s, 0) == '/'` and `bchar(s, blength(s) - 1) == '/'`; both are '\0' of an empty string
abbrev pub starts_with_slash : Bstring → Bool
starts_with_slash [] = false
starts_with_slash (c ∷ s) = c == slash

abbrev pub ends_with_slash : Bstring → Bool
ends_with_slash [] = false
ends_with_slash (c ∷ []) = c == slash
ends_with_slash (c ∷ d ∷ s) = ends_with_slash (d ∷ s)

-- `path->data + n`, for an `n` up to the length of the path
abbrev pub drop : ℕ → Bstring → Bstring
drop ℕ.zero s = s
drop (suc n) [] = []
drop (suc n) (c ∷ s) = drop n s

-- a negative `users`
abbrev pub is_negative : ℤ → Bool
is_negative (pos n) = false
is_negative (negsuc n) = true

abbrev pub is_zero : ℤ → Bool
is_zero (pos n) = n == 0
is_zero (negsuc n) = false

-- a file record as `calloc` and the first statements of `Dir_find_file` leave it
abbrev pub blank : Bstring → Stat → FileRecord
blank path sb = record {
  is_dir = false;
  fd = pos 0;
  users = pos 1;
  loaded = 0;
  date = none;
  last_mod = [];
  content_type = [];
  header = [];
  request_path = [];
  full_path = path;
  etag = [];
  sb = sb;
}

module _ {W : Type 0} where
  abbrev pub close_fd : ℤ → Store W → Store W
  close_fd fd s = record s { closed = fd ∷ s.closed }

  -- `FileRecord_destroy`
  unfoldable pub destroy : ℕ → Store W → Store W
  destroy a s =
      let s' = if (s.heap a).is_dir then s else close_fd (s.heap a).fd s in
      record s' { freed = a ∷ s'.freed }

  -- `FileRecord_release`
  unfoldable pub release : ℕ → Store W → Store W
  unfolding destroy
  release a s =
      let users = pred_ℤ (s.heap a).users in
      let s' = record s { heap = update s.heap a (record (s.heap a) { users = users }) } in
      if is_negative users then s' else if is_zero users then destroy a s' else s'

  -- `filerecord_cache_evict` for what a call of the cache has evicted, the last first
  unfoldable pub release_all : List ℕ → Store W → Store W
  release_all [] s = s
  release_all (a ∷ older) s = release a (release_all older s)

  -- a call of the cache that may evict
  unfoldable pub with_cache : Cache ℕ → Store W → Store W
  unfolding release_all
  with_cache c s = release_all c.evicted (record s { cache = record c { evicted = [] } })

  -- `file->users++`
  unfoldable pub use_file : ℕ → Store W → Store W
  use_file a s = record s {
    heap = update s.heap a (record (s.heap a) { users = succ_ℤ (s.heap a).users });
  }

  module _ (o : Files W) (lib : Strings) (dir : Dir) where
    -- `normalize_path` on a copy
    abbrev pub normalized : Bstring → Store W → Option Bstring × Store W
    normalized path s = let (r, w) = o.realpath path s.world in (r, record s { world = w })

    -- `Dir_lazy_normalize_base`: the copy of the base is kept also if it cannot be normalized
    unfoldable pub lazy_normalize_base : Store W → Bool × Store W
    lazy_normalize_base s = elim s.normalized_base [
      | some b ↦ (true, s)
      | none ↦
          let (r, s') = normalized dir.base s in
          elim r [
            | none ↦ (false, record s' { normalized_base = some dir.base })
            | some b ↦ (true, record s' { normalized_base = some b })
          ]
    ]

    -- the part of `Dir_find_file` after `open`; the label `error` closes the descriptor
    unfoldable pub describe : Bstring → Stat → ℤ → Store W → Option FileRecord × Store W
    describe path sb fd s =
        let (loaded, w) = o.time s.world in
        elim (o.http_date sb.mtime) [
          | none ↦ (none, close_fd fd (record s { world = w }))
          | some last_mod ↦ elim (o.content_type path dir.default_ctype) [
            | none ↦ (none, close_fd fd (record s { world = w }))
            | some ctype ↦
                let (now, w') = o.time w in
                let etag = o.etag_of sb.mtime sb.size in
                (
                  some (record (blank path sb) {
                    fd = fd;
                    loaded = loaded;
                    date = o.http_date now;
                    last_mod = last_mod;
                    content_type = ctype;
                    header = o.header_of (o.http_date now) ctype sb.size last_mod etag;
                    etag = etag;
                  }),
                  record s { world = w' },
                )
          ]
        ]

    -- `Dir_find_file`. Where `stat` fails `fd` is still 0, and the label `error` closes that.
    unfoldable pub find_file : Bstring → Store W → Option FileRecord × Store W
    unfolding describe
    find_file path s =
        let (st, w) = o.stat path s.world in
        elim st [
          | none ↦ (none, close_fd (pos 0) (record s { world = w }))
          | some sb ↦
              if sb.is_folder
              then (some (record (blank path sb) { is_dir = true }), record s { world = w })
              else (let (fd, w') = o.open_file path w in
                  if is_negative fd
                  then (none, close_fd fd (record s { world = w' }))
                  else describe path sb fd (record s { world = w' }))
        ]

    -- a stale file: `stat` fails, or tells another time or size
    abbrev pub changed : Stat → Option Stat → Bool
    changed sb none = true
    changed sb (some now) = not (sb.mtime == now.mtime) || not (sb.size == now.size)

    -- the test of `FileRecord_cache_check` on a file that is in the cache
    unfoldable pub check_file : ℕ → Store W → Option ℕ × Store W
    unfolding with_cache
    check_file a s =
        let (now, w) = o.time s.world in
        let file = s.heap a in
        if ltb (file.loaded + time_to_live) now
        then (let (st, w') = o.stat file.full_path w in
            if changed file.sb st
            then (none, with_cache (evict_object (λ b. b == a) s.cache) (record s { world = w' }))
            else (
              some a,
              record s { world = w'; heap = update s.heap a (record file { loaded = now }) },
            ))
        else (some a, record s { world = w })

    -- `FileRecord_cache_check`
    unfoldable pub cache_check : Bstring → Store W → Option ℕ × Store W
    unfolding check_file
    cache_check path s =
        let (r, c) = lookup (λ a. same_key (s.heap a).request_path path) s.cache in
        elim r [
          | none ↦ (none, record s { cache = c })
          | some a ↦ check_file a (record s { cache = c })
        ]

    -- `(paren > 0) ? bHead(pattern, paren) : bstrcpy(pattern)`
    abbrev pub prefix_of : Bstring → Bstring
    prefix_of pattern = elim (lib.bstrchr pattern open_paren) [
      | none ↦ pattern
      | some paren ↦ if paren == 0 then pattern else lib.b_head pattern paren
    ]

    -- the three `bformat` calls for the target
    unfoldable pub target_of : Bstring → Bstring → Bstring → Bstring
    target_of base prefix path =
        if ends_with_slash path
        then base ++ (drop (length prefix - 1) path ++ dir.index_file)
        else if same_key prefix path
        then base ++ path
        else base ++ drop (length prefix - 1) path

    -- `Dir_resolve_file` from `Dir_find_file` on: a new file record, and its address
    unfoldable pub open_target : Bstring → Bstring → Store W → Option ℕ × Store W
    unfolding find_file with_cache
    open_target target path s =
        let (r, s') = find_file target s in
        elim r [
          | none ↦ (none, s')
          | some file ↦
              let a = s'.next in
              (
                some a,
                with_cache (add a s'.cache) (record s' {
                  next = a + 1;
                  heap =
                      update s'.heap a
                        (record file { users = succ_ℤ file.users; request_path = path });
                }),
              )
        ]

    -- `Dir_resolve_file` for a path that the cache does not answer
    unfoldable pub resolve_new : Bstring → Bstring → Bstring → Store W → Option ℕ × Store W
    unfolding target_of open_target
    resolve_new base pattern path s =
        let prefix = prefix_of pattern in
        if starts_with_slash prefix && ltb (length prefix) dir.max_dir_path
        then (let (r, s') = normalized (target_of base prefix path) s in
            elim r [
              | none ↦ (none, s')
              | some target ↦
                  if is_prefix base target then open_target target path s' else (none, s')
            ])
        else (none, s)

    abbrev pub base_of : Option Bstring → Bstring
    base_of none = []
    base_of (some b) = b

    -- `Dir_resolve_file`
    unfoldable pub resolve_file : Bstring → Bstring → Store W → Option ℕ × Store W
    unfolding lazy_normalize_base cache_check resolve_new use_file
    resolve_file pattern path s =
        let (good, s1) = lazy_normalize_base s in
        if not good
        then (none, s1)
        else (let (r, s2) = cache_check path s1 in
            elim r [
              | some a ↦ (some a, use_file a s2)
              | none ↦ resolve_new (base_of s2.normalized_base) pattern path s2
            ])
