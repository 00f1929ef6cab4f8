-- ===== src/Client/Ending.antt =====
-- When the `main` of a client ends well: only if there was a thread to ask for windows.
use astraea_open_source.Prelude.{
  ℕ, ◌≡◌, refl, ap, ◌∙◌, ℤ, Bool, true, false, ◌==◌, [], if◌then◌else◌, List, Option, none, some,
  length, ◌⊎◌, inl, inr,
}
use astraea_open_source.Result.{Error, ok, err, or_throw, invalid_argument}
use astraea_open_source.Json.{Json}
use astraea_open_source.Real.{Real}
use astraea_open_source.Client.{
  Letter, Options, Run, ◌>>=◌, lift, attempt, World, stoi, open_flow, run_threads, parse_options,
  same_text, astraea, ignore_sigpipe,
}
use astraea_open_source.Client.Train
use astraea_open_source.Client.Unix
use astraea_open_source.Client.Udp
use astraea_open_source.Client.Helper

-- What a program that ends well has done: the rest, on the result of the first part.
>>=-ok :
    {J A B : Type 0} (m : Run J A) (f : A → Run J B) (b : B)
    → (m >>= f).1 ≡ ok b
    → (a : A) × (m.1 ≡ ok a) × ((f a).1 ≡ ok b)
>>=-ok (es, ok a) f b h = (a, refl, h)
>>=-ok (es, err e) f b h = absurd cc

ok-inj : {A : Type 0} (a b : A) → ok a ≡ ok b → a ≡ b
ok-inj a b h = cc

-- Only a program with a control thread ends well.
run_threads-ok :
    (J : Type 0) (control : Option ℤ)
    → (run_threads {J = J} control).1 ≡ ok tt
    → (i : ℤ) × (control ≡ some i)
unfolding run_threads
run_threads-ok J none h = absurd cc
run_threads-ok J (some i) h = (i, refl)

or_throw-ok : {A : Type 0} (e : Error) (o : Option A) (a : A) → or_throw e o ≡ ok a → o ≡ some a
or_throw-ok e none a h = absurd cc
or_throw-ok e (some b) a h = cc

unless-ok :
    {J : Type 0} (b : Bool) (m : Run J (Option ℤ)) (i : ℤ)
    → (if b then lift (ok none) else m).1 ≡ ok (some i)
    → (b ≡ false) × (m.1 ≡ ok (some i))
unless-ok true m i h = absurd cc
unless-ok false m i h = (refl, h)

when-ok :
    {J A : Type 0} (b : Bool) (m : Run J (Option A)) (p : Option A) (q : A)
    → p ≡ some q
    → (if b then m else lift (ok none)).1 ≡ ok p
    → b ≡ true
when-ok true m p q e h = refl
when-ok false m p q e h = absurd cc

interval_in-some :
    {J R : Type 0} (json : Json J R) (real : Real R) (p : Option (ℤ × ℤ)) (i : ℤ)
    → Unix.interval_in json real p ≡ some i
    → (q : ℤ × ℤ) × (p ≡ some q)
interval_in-some json real none i h = absurd cc
interval_in-some json real (some q) i h = (q, refl)

module _ {J R : Type 0} (json : Json J R) where
  setup_control-ok :
      (world : World) (o : Options) (flow_id i : ℤ)
      → (Train.setup_control json world o flow_id).1 ≡ ok (some i)
      → ((length o.ipc_file == 0) ≡ false) × (world.stoi o.interval ≡ some i)
  unfolding Train.setup_control
  setup_control-ok world o flow_id i h =
      let (named, went) = unless-ok (length o.ipc_file == 0) _ i h in
      let (done, _, after) =
        >>=-ok (Train.setup_ipc_socket json world o.ipc_file flow_id) _ (some i) went in
      let (j, read, same) =
        >>=-ok (stoi {J = J} world o.interval) (λ j. lift (ok (some j))) (some i) after in
      (
        named,
        or_throw-ok invalid_argument (world.stoi o.interval) j read ∙ ok-inj (some j) (some i) same,
      )

  -- `main` of client.cc ends without an exception only if the command line was accepted, named a
  -- socket of a controller, and gave an interval that `stoi` reads.
  pub train_main-ok :
      (world : World) (argc optind : ℕ) (args : List (Letter × Option (List ℕ)))
      → (Train.main json world argc optind args).1 ≡ ok tt
      → (o : Options) × (i : ℤ) × (parse_options Train.set_option argc optind args ≡ ok o)
        × ((length o.ipc_file == 0) ≡ false)
        × (world.stoi o.interval ≡ some i)
  unfolding Train.main Train.launch
  train_main-ok world argc optind args h =
      let (o, parsed, went) =
        >>=-ok (lift {J = J} (parse_options Train.set_option argc optind args))
          (Train.launch json world) tt h in
      let (flow_id, _, set_up) = >>=-ok (Train.flow_of json world o.id) _ tt went in
      let (control, ready, opens) = >>=-ok (Train.setup_control json world o flow_id) _ tt set_up in
      let (_, _, quiet) = >>=-ok (open_flow {J = J} [] world o) _ tt opens in
      let (_, _, threads) =
        >>=-ok (attempt {J = J} ignore_sigpipe Error.runtime_error world.ignores_sigpipe) _ tt
          quiet in
      let (i, some_control) = run_threads-ok J control threads in
      let (named, read) = setup_control-ok world o flow_id i (ready ∙ ap ok some_control) in
      (o, i, parsed, named, read)

module _ {J R : Type 0} (json : Json J R) (real : Real R) where
  unix_setup-ok :
      (world : World) (o : Options) (flow_id : ℤ) (p : Option (ℤ × ℤ)) (q : ℤ × ℤ)
      → p ≡ some q
      → (Unix.setup_service json real world o flow_id).1 ≡ ok p
      → same_text o.cong_ctl astraea ≡ true
  unfolding Unix.setup_service
  unix_setup-ok world o flow_id p q e h = when-ok (same_text o.cong_ctl astraea) _ p q e h

  udp_setup-ok :
      (world : World) (o : Options) (flow_id : ℤ) (p : Option (ℤ × ℤ)) (q : ℤ × ℤ)
      → p ≡ some q
      → (Udp.setup_service json real world o flow_id).1 ≡ ok p
      → same_text o.cong_ctl astraea ≡ true
  unfolding Udp.setup_service
  udp_setup-ok world o flow_id p q e h = when-ok (same_text o.cong_ctl astraea) _ p q e h

  -- `main` of client_eval_batch.cc ends without an exception only if the command line was accepted
  -- and chose the congestion control "astraea".
  unix_main-ok :
      (world : World) (argc optind : ℕ) (args : List (Letter × Option (List ℕ)))
      → (Unix.main json real world argc optind args).1 ≡ ok tt
      → (o : Options) × (parse_options Unix.set_option argc optind args ≡ ok o)
        × (same_text o.cong_ctl astraea ≡ true)
  unfolding Unix.main Unix.launch
  unix_main-ok world argc optind args h =
      let (_, _, started) =
        >>=-ok (attempt {J = J} ignore_sigpipe Error.runtime_error world.ignores_sigpipe) _ tt h in
      let (o, parsed, went) =
        >>=-ok (lift {J = J} (parse_options Unix.set_option argc optind args))
          (Unix.launch json real world) tt started in
      let (flow_id, _, set_up) = >>=-ok (Unix.flow_of json world o.id) _ tt went in
      let (control, ready, opens) =
        >>=-ok (Unix.setup_service json real world o flow_id) _ tt set_up in
      let (_, _, logs) = >>=-ok (open_flow {J = J} [] world o) _ tt opens in
      let (_, _, threads) = >>=-ok (Unix.setup_log json world o.perf_log_path) _ tt logs in
      let (i, some_interval) = run_threads-ok J (Unix.interval_in json real control) threads in
      let (q, some_control) = interval_in-some json real control i some_interval in
      (o, parsed, unix_setup-ok world o flow_id control q some_control ready)

  -- `main` of client_eval_batch_udp.cc ends without an exception only if the command line was
  -- accepted and chose the congestion control "astraea".
  udp_main-ok :
      (world : World) (argc optind : ℕ) (args : List (Letter × Option (List ℕ)))
      → (Udp.main json real world argc optind args).1 ≡ ok tt
      → (o : Options) × (parse_options Unix.set_option argc optind args ≡ ok o)
        × (same_text o.cong_ctl astraea ≡ true)
  unfolding Udp.main Udp.launch
  udp_main-ok world argc optind args h =
      let (_, _, started) =
        >>=-ok (attempt {J = J} ignore_sigpipe Error.runtime_error world.ignores_sigpipe) _ tt h in
      let (o, parsed, went) =
        >>=-ok (lift {J = J} (parse_options Unix.set_option argc optind args))
          (Udp.launch json real world) tt started in
      let (flow_id, _, set_up) = >>=-ok (Unix.flow_of json world o.id) _ tt went in
      let (control, ready, opens) =
        >>=-ok (Udp.setup_service json real world o flow_id) _ tt set_up in
      let (_, _, logs) = >>=-ok (open_flow {J = J} Udp.timeouts world o) _ tt opens in
      let (_, _, threads) = >>=-ok (Unix.setup_log json world o.perf_log_path) _ tt logs in
      let (i, some_interval) = run_threads-ok J (Unix.interval_in json real control) threads in
      let (q, some_control) = interval_in-some json real control i some_interval in
      (o, parsed, udp_setup-ok world o flow_id control q some_control ready)

module _ {J R : Type 0} (json : Json J R) where
  -- Only a program with a helper or a monitor ends well.
  helper_threads-ok :
      (control : Option ℤ) (monitored : Bool)
      → (Helper.run_threads json control monitored).1 ≡ ok tt
      → ((i : ℤ) × (control ≡ some i)) ⊎ (monitored ≡ true)
  unfolding Helper.run_threads
  helper_threads-ok (some i) monitored h = inl (i, refl)
  helper_threads-ok none true h = inr refl
  helper_threads-ok none false h = absurd cc

  helper_setup-ok :
      (world : World) (o : Options) (control : Option ℤ) (i : ℤ)
      → control ≡ some i
      → (Helper.setup_helper json world o).1 ≡ ok control
      → Helper.wants_helper o ≡ true
  unfolding Helper.setup_helper
  helper_setup-ok world o control i e h = when-ok (Helper.wants_helper o) _ control i e h

  -- `main` of client_eval.cc ends without an exception only if the command line was accepted, and
  -- either chose the congestion control "astraea" with a helper and a model, or chose another one, or
  -- none, with a performance log.
  pub helper_main-ok :
      (world : World) (argc optind : ℕ) (args : List (Letter × Option (List ℕ)))
      → (Helper.main json world argc optind args).1 ≡ ok tt
      → (o : Options) × (parse_options Helper.set_option argc optind args ≡ ok o)
        × ((Helper.wants_helper o ≡ true) ⊎ (Helper.is_monitored json o ≡ true))
  unfolding Helper.main Helper.launch
  helper_main-ok world argc optind args h =
      let (_, _, started) =
        >>=-ok (attempt {J = J} ignore_sigpipe Error.runtime_error world.ignores_sigpipe) _ tt h in
      let (o, parsed, went) =
        >>=-ok (lift {J = J} (parse_options Helper.set_option argc optind args))
          (Helper.launch json world) tt started in
      let (flow_id, _, set_up) = >>=-ok (Train.flow_of json world o.id) _ tt went in
      let (control, ready, opens) = >>=-ok (Helper.setup_helper json world o) _ tt set_up in
      let (_, _, logs) = >>=-ok (open_flow {J = J} [] world o) _ tt opens in
      let (_, _, threads) = >>=-ok (Unix.setup_log json world o.perf_log_path) _ tt logs in
      elim (helper_threads-ok control (Helper.is_monitored json o) threads) [
        | inl (i, e) ↦ (o, parsed, inl (helper_setup-ok world o control i e ready))
        | inr m ↦ (o, parsed, inr m)
      ]
