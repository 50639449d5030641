-- ===== src/Dir/Find/Users.antt =====
-- The user counts of the file records of src/dir.c, whatever requests run at a time.
use mongrel.Prelude.{
  ℕ, suc, ◌+◌, ◌≤◌, ◌<◌, ◌≡◌, sym, ap, ◌∙◌, pos, ◌&&◌, count, ◌==◌, if◌then◌else◌, arith,
}
use mongrel.Dir.Files.{Store}
use mongrel.Dir.Find.{release}

module _ {W : Type 0} where
  -- `refs` counts the references to an address: its file record has as many users, and it is freed,
  -- once, if there are none; the addresses that are not given out yet have no references.
  pub record Tracks (refs : ℕ → ℕ) (s : Store W) : Type 0 where
    pub users_of : (a : ℕ) → a < s.next → (s.heap a).users ≡ pos (refs a)
    pub freed_of : (a : ℕ) → a < s.next → count a s.freed ≡ (if refs a == 0 then 1 else 0)
    pub unused : (a : ℕ) → s.next ≤ a → (refs a ≡ 0) × (count a s.freed ≡ 0)

  pub Tracks-ext : (r q : ℕ → ℕ) (s : Store W) → ((a : ℕ) → q a ≡ r a) → Tracks r s → Tracks q s
  Tracks-ext r q s e t = record {
    users_of = λ a h. t.users_of a h ∙ ap pos (sym (e a));
    freed_of = λ a h. rw (e a) (t.freed_of a h);
    unused = λ a h. (e a ∙ (t.unused a h).0, (t.unused a h).1);
  }

  pub release_same :
      (a : ℕ) (s : Store W)
      → ((release a s).next ≡ s.next)
        × ((release a s).cache ≡ s.cache)
        × ((release a s).normalized_base ≡ s.normalized_base)
        × ((release a s).world ≡ s.world)
  unfolding release
  release_same a s = ground arith

  release-users :
      (a b : ℕ) (s : Store W) (n : ℕ)
      → (s.heap a).users ≡ pos (suc n)
      → (((release a s).heap b).users ≡ (if a == b then pos n else (s.heap b).users))
        × (count b (release a s).freed ≡ (if (a == b) && (n == 0) then 1 else 0) + count b s.freed)
  unfolding release
  release-users a b s n h = ground arith

  pub release-Tracks :
      (a : ℕ) (r q : ℕ → ℕ) (s : Store W)
      → ((b : ℕ) → q b + (if a == b then 1 else 0) ≡ r b)
      → Tracks r s
      → Tracks q (release a s)
  release-Tracks a r q s e t =
      let one : q a + 1 ≡ r a = ground (arith, e a) in
      let (next, cache, base, world) = release_same a s in
      let in_use : a < s.next = ground (arith, t.unused a) in
      let users : (s.heap a).users ≡ pos (suc (q a)) = t.users_of a in_use ∙ ap pos (omega arith) in
      record {
        users_of = λ b h.
            let (u, f) = release-users a b s (q a) users in ground (arith, e b, t.users_of b);
        freed_of = λ b h.
            let (u, f) = release-users a b s (q a) users in ground (arith, e b, t.freed_of b);
        unused =
            λ b h. let (u, f) = release-users a b s (q a) users in ground (arith, e b, t.unused b);
      }
