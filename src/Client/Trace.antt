-- ===== src/Client/Trace.antt =====
-- The calls of a client, in their order: which of them need the TCP connection.
use astraea_open_source.Prelude.{
  ℕ, ◌≡◌, refl, ℤ, Bool, true, false, List, [], ◌∷◌, ◌++◌, ◌⊎◌, inl, inr, All,
}
use astraea_open_source.Result.{Error, ok, err}
use astraea_open_source.Client.{
  Options, stoi, resolve, tune, Effect, connect, set_reuseaddr, enable_deepcc, Run, ◌>>=◌, ◌>>◌,
  attempt, World, open_flow, start_control, set_congestion_control, set_nodelay, set_tcp_cwnd,
  start_monitor, start_data,
}

module _ {J : Type 0} where
  abbrev pub is_connect : Effect J → Bool
  is_connect (connect ip port) = true
  is_connect _ = false

  -- The calls that need no TCP connection.
  abbrev pub is_quiet : Effect J → Bool
  is_quiet (connect ip port) = false
  is_quiet (set_congestion_control name) = false
  is_quiet set_nodelay = false
  is_quiet (enable_deepcc n) = false
  is_quiet (set_tcp_cwnd n) = false
  is_quiet (start_control n) = false
  is_quiet start_monitor = false
  is_quiet start_data = false
  is_quiet _ = true

  abbrev pub Quiet : List (Effect J) → Type 0
  Quiet = All (λ e. is_quiet e ≡ true)

  -- Before the connection stands, no call is made that needs it.
  unfoldable pub Ordered : List (Effect J) → Type 0
  Ordered [] = Unit
  Ordered (e ∷ es) = (is_connect e ≡ true) ⊎ ((is_quiet e ≡ true) × Ordered es)

  -- And the connection stands.
  unfoldable pub Connects : List (Effect J) → Type 0
  Connects [] = ⊥
  Connects (e ∷ es) = (is_connect e ≡ true) ⊎ ((is_quiet e ≡ true) × Connects es)

  pub Quiet-append : (es fs : List (Effect J)) → Quiet es → Quiet fs → Quiet (es ++ fs)
  Quiet-append [] fs q p = p
  Quiet-append (e ∷ es) fs (h, q) p = (h, Quiet-append es fs q p)

  pub Quiet→Ordered : (es : List (Effect J)) → Quiet es → Ordered es
  unfolding Ordered
  Quiet→Ordered [] q = tt
  Quiet→Ordered (e ∷ es) (h, q) = inr (h, Quiet→Ordered es q)

  pub Ordered-append : (es fs : List (Effect J)) → Quiet es → Ordered fs → Ordered (es ++ fs)
  unfolding Ordered
  Ordered-append [] fs q p = p
  Ordered-append (e ∷ es) fs (h, q) p = inr (h, Ordered-append es fs q p)

  pub Connects-append : (es fs : List (Effect J)) → Quiet es → Connects fs → Connects (es ++ fs)
  unfolding Connects
  Connects-append [] fs q p = p
  Connects-append (e ∷ es) fs (h, q) p = inr (h, Connects-append es fs q p)

  pub Connects→Ordered : (es fs : List (Effect J)) → Connects es → Ordered (es ++ fs)
  unfolding Connects Ordered
  Connects→Ordered [] fs c = absurd c
  Connects→Ordered (e ∷ es) fs (inl h) = inl h
  Connects→Ordered (e ∷ es) fs (inr (h, c)) = inr (h, Connects→Ordered es fs c)

  module _ {A B : Type 0} where
    pub >>=-Quiet :
        (m : Run J A) (f : A → Run J B) → Quiet m.0 → ((a : A) → Quiet (f a).0) → Quiet (m >>= f).0
    >>=-Quiet (es, ok a) f q p = Quiet-append es (f a).0 q (p a)
    >>=-Quiet (es, err e) f q p = q

    pub >>=-Ordered :
        (m : Run J A) (f : A → Run J B)
        → Quiet m.0
        → ((a : A) → Ordered (f a).0)
        → Ordered (m >>= f).0
    >>=-Ordered (es, ok a) f q p = Ordered-append es (f a).0 q (p a)
    >>=-Ordered (es, err e) f q p = Quiet→Ordered es q

  -- A run that opens the connection, or fails before it.
  pub record Opens {A : Type 0} (m : Run J A) : Type 0 where
    pub ordered : Ordered m.0
    pub opened : (a : A) → m.1 ≡ ok a → Connects m.0

  module _ {A B : Type 0} where
    pub >>=-Opens :
        (m : Run J A) (f : A → Run J B) → Quiet m.0 → ((a : A) → Opens (f a)) → Opens (m >>= f)
    >>=-Opens (es, ok a) f q p = record {
      ordered = Ordered-append es (f a).0 q (p a).ordered;
      opened = λ b h. Connects-append es (f a).0 q ((p a).opened b h);
    }
    >>=-Opens (es, err e) f q p = record { ordered = Quiet→Ordered es q; opened = λ b h. absurd cc }

    pub Opens→Ordered : (m : Run J A) (f : A → Run J B) → Opens m → Ordered (m >>= f).0
    Opens→Ordered (es, ok a) f o = Connects→Ordered es (f a).0 (o.opened a refl)
    Opens→Ordered (es, err e) f o = o.ordered

  pub connect-Opens :
      (ip : List ℕ) (port : ℤ) (accepts : Bool) (k : Run J (Unit {0}))
      → Opens (attempt (connect ip port) Error.unix_error accepts >> k)
  unfolding Ordered Connects
  connect-Opens ip port true k = record { ordered = inl refl; opened = λ a h. inl refl }
  connect-Opens ip port false k = record { ordered = tt; opened = λ a h. absurd cc }

  pub attempt-Quiet :
      (c : Effect J) (e : Error) (b : Bool) → is_quiet c ≡ true → Quiet (attempt c e b).0
  attempt-Quiet c e true h = (h, tt)
  attempt-Quiet c e false h = tt

  pub open_flow-Opens :
      (asked : List (Effect J)) (world : World) (o : Options)
      → Quiet asked
      → Opens {A = Unit} (open_flow asked world o)
  unfolding open_flow
  open_flow-Opens asked world o q = >>=-Opens (stoi {J = J} world o.service) _ tt (λ port.
      >>=-Opens (resolve {J = J} world) _ tt (λ known.
        >>=-Opens (asked, ok tt) _ q
          (λ set.
            >>=-Opens (attempt set_reuseaddr Error.unix_error world.takes_reuseaddr)
              (λ _. attempt (connect o.ip port) Error.unix_error world.accepts >> tune world o)
              (attempt-Quiet set_reuseaddr Error.unix_error world.takes_reuseaddr refl)
              (λ done. connect-Opens o.ip port world.accepts (tune world o)))))
