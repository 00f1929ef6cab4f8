-- ===== src/Poller.antt =====
-- net/poller.cc and .hh: the loop that waits for descriptors and calls back. The callbacks, and what
-- the program's descriptors are to them, are a parameter; so is the answer of the kernel's `poll`.
pub mod Rounds
pub mod Pairing
pub mod Polls
pub mod Calls
pub mod Tests
use astraea_open_source.Prelude.{
  ℕ, ℤ, pos, Bool, true, false, ◌&&◌, ◌||◌, not, ◌==◌, ◌==ℤ◌, if◌then◌else◌, List, [], ◌∷◌, ◌++◌,
  map, Option, none, some, length,
}
use astraea_open_source.Result.{Error, Result, ok, err, runtime_error, unix_error}

pub data Direction : Type 0 where
  input output : Direction

-- `Poller::Action`. `fd` is the FileDescriptor that it refers to, of which the number may change;
-- `callback` names what the action calls.
pub record Action : Type 0 where
  pub fd : ℕ
  pub direction : Direction
  pub callback : ℕ
  pub fail_poller : Bool
  pub active : Bool

-- A `pollfd`, with the number that the descriptor had when it was made; `none` for `events` is 0.
pub record PollFd : Type 0 where
  pub fd : ℕ
  pub events : Option Direction

-- The bits of `revents`; `error` is any of POLLERR, POLLHUP and POLLNVAL.
pub record Revents : Type 0 where
  pub error : Bool
  pub readable : Bool
  pub writable : Bool

pub data ResultType : Type 0 where
  continue cancel cancel_all : ResultType
  exit : ℕ → ResultType

-- What a callback did: the actions it added and the descriptors it asked to remove, in order.
pub record Call (W : Type 0) : Type 0 where
  pub world : W
  pub added : List Action
  pub removed : List ℕ
  pub outcome : Result ResultType

-- The program around the poller. `number` is `fd_num()` of a descriptor, in 32 bits: that of one that
-- was closed or moved from, -1, is 2 ^ 32 - 1.
pub record Callbacks (W : Type 0) : Type 0 where
  pub number : W → ℕ → ℕ
  pub eof : W → ℕ → Bool
  pub service_count : W → ℕ → Direction → ℕ
  pub when_interested : W → Action → Bool
  pub call : W → Action → Call W
  pub fderror : W → Action → Call W

pub record Poller : Type 0 where
  pub add_queue : List Action
  pub actions : List Action
  pub pollfds : List PollFd
  pub to_remove : List ℕ

unfoldable pub add_action : Poller → Action → Poller
add_action p a = record p { add_queue = p.add_queue ++ (a ∷ []) }

unfoldable pub remove_fd : Poller → ℕ → Poller
remove_fd p n = record p { to_remove = p.to_remove ++ (n ∷ []) }

-- How a poll ends: with a result, with an exception, or with a failed assertion.
pub data Outcome : Type 0 where
  success timeout aborts : Outcome
  exits : ℕ → Outcome
  throws : Error → Outcome

-- The answer of `::poll`
pub data Polled : Type 0 where
  failed timed_out : Polled
  ready : List Revents → Polled

abbrev pub is_member : List ℕ → ℕ → Bool
is_member [] n = false
is_member (m ∷ ms) n = m == n || is_member ms n

-- The loop of `remove_actions`, over both lists at once; on no numbers at all it is not run.
unfoldable pub remove_actions : List ℕ → List Action → List PollFd → List Action × List PollFd
remove_actions fds [] ps = ([], ps)
remove_actions fds (a ∷ acts) [] = (a ∷ acts, [])
remove_actions fds (a ∷ acts) (p ∷ ps) =
    let rest = remove_actions fds acts ps in
    if is_member fds p.fd then rest else (a ∷ rest.0, p ∷ rest.1)

-- The queue's actions go to the end of both lists, with the numbers of their descriptors.
abbrev pub new_pollfd : (ℕ → ℕ) → Action → PollFd
new_pollfd number a = record { fd = number a.fd; events = none }

unfoldable pub admit : (ℕ → ℕ) → Poller → Poller
admit number p = record p {
  add_queue = [];
  actions = p.actions ++ p.add_queue;
  pollfds = p.pollfds ++ map (new_pollfd number) p.add_queue;
}

abbrev pub is_input : Direction → Bool
is_input input = true
is_input output = false

-- `accumulate` over the events
abbrev pub any_events : List PollFd → Bool
any_events [] = false
any_events (p ∷ ps) = elim p.events [ none ↦ any_events ps | some d ↦ true ]

-- `revents & events`
abbrev pub asked : Revents → Option Direction → Bool
asked v none = false
asked v (some input) = v.readable
asked v (some output) = v.writable

abbrev pub next_revents : List Revents → Revents
next_revents [] = record { error = false; readable = false; writable = false }
next_revents (v ∷ vs) = v

abbrev pub later_revents : List Revents → List Revents
later_revents [] = []
later_revents (v ∷ vs) = vs

-- The state of the loop that calls back. `called` keeps the actions whose callback was called.
pub record Round (W : Type 0) : Type 0 where
  pub world : W
  pub added : List Action
  pub removed : List ℕ
  pub called : List Action

-- One action served: the loop goes on, or ends at once.
pub data Served (W : Type 0) : Type 0 where
  goes : Action → Round W → Served W
  stops : Action → Round W → Outcome → Served W

module _ {W : Type 0} (env : Callbacks W) where
  -- Whether the poller asks for an action's event: not for input at the end of the file.
  unfoldable pub is_wanted : W → Action → Bool
  is_wanted w a =
      a.active && env.when_interested w a && not (is_input a.direction && env.eof w a.fd)

  abbrev pub wanted : W → Action → Option Direction
  wanted w a = if is_wanted w a then some a.direction else none

  -- The loop that writes `events`; `none` is a failed assertion.
  unfoldable pub ask : W → List Action → List PollFd → Option (List PollFd)
  unfolding is_wanted
  ask w [] ps = some ps
  ask w (a ∷ acts) [] = some []
  ask w (a ∷ acts) (p ∷ ps) =
      let rest = ask w acts ps in
      if p.fd == env.number w a.fd
      then elim rest [ none ↦ none | some qs ↦ some (record p { events = wanted w a } ∷ qs) ]
      else none

  -- What a call leaves in the round.
  abbrev pub noted : Round W → Call W → Round W
  noted r c = record r {
    world = c.world;
    added = r.added ++ c.added;
    removed = r.removed ++ c.removed;
  }

  abbrev pub drop_fd : Action → ℕ → Round W → Result ResultType → Served W
  drop_fd a n r (ok result) = goes a (record r { removed = r.removed ++ (n ∷ []) })
  drop_fd a n r (err e) = stops a r (throws e)

  -- `fderror_callback`, and the number in the `pollfd` is to be removed.
  unfoldable pub give_up : Action → ℕ → Round W → Served W
  give_up a n r = let c = env.fderror r.world a in drop_fd a n (noted r c) c.outcome

  -- The test for a busy wait.
  abbrev pub unless_busy : ℕ → Action → Round W → Served W
  unless_busy before a r =
      if env.service_count r.world a.fd a.direction == before
      then stops a r (throws runtime_error)
      else goes a r

  -- What is made of a callback's result.
  abbrev pub settle : ℕ → Action → ℕ → Round W → Result ResultType → Served W
  settle before a n r (ok continue) = unless_busy before a r
  settle before a n r (ok cancel) = unless_busy before (record a { active = false }) r
  settle before a n r (ok cancel_all) =
      unless_busy before a (record r { removed = r.removed ++ (n ∷ []) })
  settle before a n r (ok (exit status)) = stops a r (exits status)
  settle before a n r (err e) = if a.fail_poller then stops a r (throws e) else give_up a n r

  -- The callback is called, and its result looked at.
  unfoldable pub call_back : Action → ℕ → Round W → Served W
  unfolding give_up
  call_back a n r =
      let before = env.service_count r.world a.fd a.direction in
      let c = env.call r.world a in
      settle before a n (record (noted r c) { called = r.called ++ (a ∷ []) }) c.outcome

  -- The body of the loop
  unfoldable pub serve : Action → PollFd → Revents → Round W → Served W
  unfolding call_back
  serve a p v r =
      if p.fd == env.number r.world a.fd
      then (if v.error
          then give_up a p.fd r
          else (if asked v p.events then call_back a p.fd r else goes a r))
      else stops a r aborts

  -- The loop, and the actions acts it leaves them; `success` stands for its end.
  unfoldable pub serve_all :
      List Action → List PollFd → List Revents → Round W → List Action × Round W × Outcome
  unfolding serve
  serve_all [] ps vs r = ([], r, success)
  serve_all (a ∷ acts) [] vs r = (a ∷ acts, r, success)
  serve_all (a ∷ acts) (p ∷ ps) vs r = elim (serve a p (next_revents vs) r) [
    | goes a' r' ↦
        let rest = serve_all acts ps (later_revents vs) r' in (a' ∷ rest.0, rest.1, rest.2)
    | stops a' r' o ↦ (a' ∷ acts, r', o)
  ]

-- A poll: the poller and the world after it, the actions that were called, and the outcome.
pub record Turn (W : Type 0) : Type 0 where
  pub poller : Poller
  pub world : W
  pub called : List Action
  pub outcome : Outcome

module _ {W : Type 0} (env : Callbacks W) where
  -- The end of `poll`: only a loop that came to its end removes what is to be removed.
  abbrev pub finish : List PollFd → List Action × Round W × Outcome → Turn W
  finish ps (acts, r, success) = record {
    poller = record {
      add_queue = r.added;
      actions = (remove_actions r.removed acts ps).0;
      pollfds = (remove_actions r.removed acts ps).1;
      to_remove = [];
    };
    world = r.world;
    called = r.called;
    outcome = success;
  }
  finish ps (acts, r, o) = record {
    poller = record { add_queue = r.added; actions = acts; pollfds = ps; to_remove = r.removed };
    world = r.world;
    called = r.called;
    outcome = o;
  }

  -- A poll that calls nobody.
  abbrev pub quiet : Poller → W → Outcome → Turn W
  quiet p w o = record { poller = p; world = w; called = []; outcome = o }

  -- `poll`, from the system call on
  unfoldable pub answer : Poller → W → Polled → Turn W
  unfolding serve_all remove_actions
  answer p w failed = quiet p w (throws unix_error)
  answer p w timed_out = quiet p w timeout
  answer p w (ready vs) = finish p.pollfds (
      serve_all env p.actions p.pollfds vs
        (record { world = w; added = p.add_queue; removed = p.to_remove; called = [] }))

  -- `poll`, from the loop that asks on
  abbrev pub await : Poller → W → Polled → Option (List PollFd) → Turn W
  await p w kernel none = quiet p w aborts
  await p w kernel (some ps) =
      if any_events ps
      then answer (record p { pollfds = ps }) w kernel
      else quiet (record p { pollfds = ps }) w (exits 0)

  -- `poll`
  unfoldable pub poll : Poller → W → ℤ → Polled → Turn W
  unfolding admit ask answer
  poll p w timeout_ms kernel =
      let q = admit (env.number w) p in
      if length q.pollfds == length q.actions
      then (if timeout_ms ==ℤ pos 0
          then quiet q w (throws runtime_error)
          else await q w kernel (ask env w q.actions q.pollfds))
      else quiet q w aborts
