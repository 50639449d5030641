-- ===== src/SuperPoll.antt =====
-- src/superpoll.c with epoll: the hot items that `zmq_poll` looks at, and the idle ones that lie in
-- an epoll descriptor. The first `nfd_hot` entries of `pollfd` and `hot_data` are the list `hot`; a
-- `void *` is a number, and a node of the idle lists is the index of its `IdleData`.
pub mod Hot
pub mod Idle
use mongrel.Prelude.{
  ℕ, zero, suc, ◌+◌, ◌*◌, ℤ, pos, negsuc, minus_one, Bool, true, false, not, ◌&&◌, ◌||◌, Option,
  none, some, List, [], ◌∷◌, ◌++◌, length, ltb, ◌==◌, if◌then◌else◌, update,
}

-- `zmq_pollitem_t` and the data that lies beside it
pub record Item : Type 0 where
  pub fd : ℤ
  pub socket : Option ℕ
  pub events : ℕ
  pub revents : ℕ
  pub data_of : ℕ

-- `IdleData`
pub record IdleData : Type 0 where
  pub fd : ℤ
  pub data_of : ℕ

-- an event of `epoll_wait`: the node, and whether EPOLLIN and EPOLLOUT are in it
pub record EpollEvent : Type 0 where
  pub node : ℕ
  pub readable : Bool
  pub writable : Bool

pub record SuperPoll : Type 0 where
  pub hot : List Item
  pub max_hot : ℕ
  pub idle_fd : ℤ
  pub max_idle : ℕ
  pub idle_data : ℕ → IdleData
  pub idle_free : List ℕ
  pub idle_active : List ℕ

-- What `epoll_ctl` is asked, and the calls: a failure is `false`, with whether errno is EEXIST or
-- EINTR. `zmq_poll` answers how many items it found, and the `revents` of all of them.
pub data Control : Type 0 where
  epoll_add epoll_mod epoll_del : Control

pub record Kernel (W : Type 0) : Type 0 where
  pub epoll_ctl : Control → ℤ → ℕ → W → (Bool × Bool) × W
  pub epoll_wait : W → Option (List EpollEvent) × W
  pub zmq_poll : List Item → ℕ → W → (Option ℕ × Bool) × (List ℕ × W)

-- ZMQ_POLLIN, ZMQ_POLLOUT
abbrev pub pollin : ℕ
pollin = 1

abbrev pub pollout : ℕ
pollout = 2

-- 'r', 'w'
abbrev pub for_read : ℕ
for_read = 114

abbrev pub for_write : ℕ
for_write = 119

-- `SuperPoll_add_poll`: `nfd_hot` afterwards, or -1
unfoldable pub add_poll : ℕ → Option ℕ → ℤ → ℕ → SuperPoll → ℤ × SuperPoll
add_poll user socket fd mode sp =
    let with_bits : ℕ → ℤ × SuperPoll = λ bits. (
      pos (length sp.hot + 1),
      record sp {
        hot =
            sp.hot
            ++ (record { fd = fd; socket = socket; events = bits; revents = 0; data_of = user }
                ∷ []);
      },
    ) in
    if not (ltb (length sp.hot) sp.max_hot)
    then (minus_one, sp)
    else if mode == for_read
    then with_bits pollin
    else if mode == for_write
    then with_bits pollout
    else (minus_one, sp)

-- the last of a list that is not empty, and the others
abbrev pub last_of : Item → List Item → Item
last_of x [] = x
last_of x (y ∷ l) = last_of y l

abbrev pub others_of : Item → List Item → List Item
others_of x [] = []
others_of x (y ∷ l) = x ∷ others_of y l

-- `SuperPoll_compact_down` at the first of a part of the array that ends with it
unfoldable pub compact_down : List Item → List Item
compact_down [] = []
compact_down (x ∷ []) = []
compact_down (x ∷ y ∷ l) = last_of y l ∷ others_of y l

-- The `while` of `SuperPoll_poll`: the items up to `cur_i`, and those from there on.
unfoldable pub skip : List Item → List Item → List Item × List Item
skip before [] = (before, [])
skip before (x ∷ l) =
    let rest = skip (before ++ (x ∷ [])) l in if x.revents == 0 then rest else (before, x ∷ l)

module _ {W : Type 0} (kernel : Kernel W) where
  -- `list_del_last`
  abbrev last_free : ℕ → List ℕ → ℕ × List ℕ
  last_free n [] = (n, [])
  last_free n (m ∷ l) = let rest = last_free m l in (rest.0, n ∷ rest.1)

  -- `SuperPoll_add_idle`
  unfoldable pub add_idle : ℕ → ℤ → ℕ → SuperPoll → W → ℤ × (SuperPoll × W)
  add_idle user fd mode sp w = elim sp.idle_free [
    | [] ↦ (minus_one, (sp, w))
    | n ∷ l ↦
        let (next, free) = last_free n l in
        let sp' = record sp {
          idle_data = update sp.idle_data next (record { fd = fd; data_of = user });
          idle_free = free;
          idle_active = sp.idle_active ++ (next ∷ []);
        } in
        let ((added, exists), w1) = kernel.epoll_ctl epoll_add fd next w in
        let ((changed, again), w2) = kernel.epoll_ctl epoll_mod fd next w1 in
        if mode == for_read || mode == for_write
        then (if added
            then (pos 1, (sp', w1))
            else if exists
            then (minus_one, (sp', w2))
            else (minus_one, (sp', w1)))
        else (minus_one, (sp', w))
  ]

  -- `list_delete` of a node that is in the list
  pub list_delete : ℕ → List ℕ → List ℕ
  list_delete n [] = []
  list_delete n (m ∷ l) = let rest = list_delete n l in if m == n then l else m ∷ rest

  -- The loop of `SuperPoll_add_idle_hits`: `revents` is that of `ev`, which the rounds share; the
  -- hits are the last first. `false` where `epoll_ctl` fails.
  unfoldable pub idle_loop :
      List EpollEvent → ℕ → List Item → SuperPoll → W → Bool × (List Item × (SuperPoll × W))
  unfolding list_delete
  idle_loop [] revents hits sp w = (true, (hits, (sp, w)))
  idle_loop (e ∷ es) revents hits sp w =
      let idle = sp.idle_data e.node in
      let now = if e.writable then pollout else if e.readable then pollin else revents in
      let ev : Item = record {
        fd = idle.fd;
        socket = none;
        events = 0;
        revents = now;
        data_of = idle.data_of;
      } in
      let hits' = if now == 0 then hits else ev ∷ hits in
      let ((gone, _), w') = kernel.epoll_ctl epoll_del idle.fd 0 w in
      let sp' = record sp {
        idle_active = list_delete e.node sp.idle_active;
        idle_free = sp.idle_free ++ (e.node ∷ []);
      } in
      let rest = idle_loop es now hits' sp' w' in if gone then rest else (false, (hits', (sp, w')))

  -- `SuperPoll_add_idle_hits`
  unfoldable pub add_idle_hits : List Item → SuperPoll → W → Bool × (List Item × (SuperPoll × W))
  unfolding idle_loop
  add_idle_hits hits sp w =
      let (events, w') = kernel.epoll_wait w in
      elim events [ none ↦ (false, (hits, (sp, w'))) | some es ↦ idle_loop es 0 hits sp w' ]

  abbrev same_fd : ℤ → ℤ → Bool
  same_fd (pos m) (pos n) = m == n
  same_fd (negsuc m) (negsuc n) = m == n
  same_fd _ _ = false

  -- what the loop of `SuperPoll_poll` leaves: the hits, whether the idle descriptor was hit, and
  -- whether it went to the label `error`
  pub record Polled : Type 0 where
    pub hits : List Item
    pub hit_idle : Bool
    pub failed : Bool
    pub left : List Item
    pub rest_of : SuperPoll
    pub world : W

  -- The loop over `nfound`: `before` and `after` are the array up to `cur_i` and from there on. `none`
  -- where `cur_i` runs off the array.
  unfoldable pub poll_loop :
      ℕ → List Item → List Item → List Item → Bool → SuperPoll → W → Option Polled
  unfolding skip compact_down add_idle_hits
  poll_loop zero before after hits hit_idle sp w = some (record {
    hits = hits;
    hit_idle = hit_idle;
    failed = false;
    left = before ++ after;
    rest_of = sp;
    world = w;
  })
  poll_loop (suc n) before after hits hit_idle sp w =
      let (before', after') = skip before after in
      elim after' [
        | [] ↦ none
        | item ∷ more ↦
            let (good, (idle_hits, (sp', w'))) = add_idle_hits hits sp w in
            let with_idle =
              poll_loop n before' (compact_down (item ∷ more)) idle_hits true sp' w' in
            let with_hit =
              poll_loop n before' (compact_down (item ∷ more)) (item ∷ hits) hit_idle sp w in
            if same_fd item.fd sp.idle_fd
            then (if good
                then with_idle
                else some (record {
                  hits = idle_hits;
                  hit_idle = true;
                  failed = true;
                  left = before' ++ (item ∷ more);
                  rest_of = sp';
                  world = w';
                }))
            else with_hit
      ]

  -- the `revents` that `zmq_poll` writes
  abbrev write_revents : List Item → List ℕ → List Item
  write_revents [] rs = []
  write_revents (x ∷ l) [] = x ∷ l
  write_revents (x ∷ l) (r ∷ rs) = record x { revents = r } ∷ write_revents l rs

  -- `SuperPoll_poll`, with `SuperPoll_arm_idle_fd`: the hits, or `none` for -1; the outer `none` is
  -- an access past the array
  unfoldable pub poll : ℕ → SuperPoll → W → Option (Option (List Item) × (SuperPoll × W))
  unfolding poll_loop add_poll
  poll ms sp w =
      let ((found, interrupted), (revents, w')) = kernel.zmq_poll sp.hot (ms * 1000) w in
      let items = write_revents sp.hot revents in
      elim found [
        | none ↦ some (if interrupted then some [] else none, (record sp { hot = items }, w'))
        | some n ↦ elim (poll_loop n [] items [] false (record sp { hot = items }) w') [
          | none ↦ none
          | some p ↦
              let sp' = record p.rest_of { hot = p.left } in
              some (
                if p.failed then (none, (sp', p.world)) else (
                  some p.hits,
                  (
                    (if p.hit_idle then (add_poll 0 none sp.idle_fd for_read sp').1 else sp'),
                    p.world,
                  ),
                ))
        ]
      ]
