-- ===== src/Client/Launch.antt =====
-- What the `main` of client.cc, client_eval.cc, passive_client.cc and the two clients of the inference service does, and in which order.
use astraea_open_source.Prelude.{ℕ, refl, List, [], Option}
use astraea_open_source.Result.{Error, Result}
use astraea_open_source.Json.{Json}
use astraea_open_source.Real.{Real}
use astraea_open_source.Client.{
  Letter, Options, Run, ◌>>=◌, ◌>>◌, lift, attempt, World, open_flow, parse_options, ignore_sigpipe,
}
use astraea_open_source.Client.Train
use astraea_open_source.Client.Unix
use astraea_open_source.Client.Udp
use astraea_open_source.Client.Helper
use astraea_open_source.Client.Passive
use astraea_open_source.Client.Trace.{
  Ordered, >>=-Ordered, Opens→Ordered, open_flow-Opens, attempt-Quiet,
}
use astraea_open_source.Client.Setup.{
  Train_flow_of-Quiet, Unix_flow_of-Quiet, setup_control-Quiet, unix_setup-Quiet, udp_setup-Quiet,
  helper_setup-Quiet, passive_setup-Quiet,
}

module _ {J R : Type 0} (json : Json J R) (real : Real R) where
  Train_launch-Ordered : (world : World) (o : Options) → Ordered (Train.launch json world o).0
  unfolding Train.launch
  Train_launch-Ordered world o =
      >>=-Ordered (Train.flow_of json world o.id) _ (Train_flow_of-Quiet json real world o.id)
        (λ flow_id.
          >>=-Ordered (Train.setup_control json world o flow_id) _
            (setup_control-Quiet json real world o flow_id)
            (λ control. Opens→Ordered (open_flow [] world o) _ (open_flow-Opens [] world o tt)))

  Unix_launch-Ordered : (world : World) (o : Options) → Ordered (Unix.launch json real world o).0
  unfolding Unix.launch
  Unix_launch-Ordered world o =
      >>=-Ordered (Unix.flow_of json world o.id) _ (Unix_flow_of-Quiet json real world o.id)
        (λ flow_id.
          >>=-Ordered (Unix.setup_service json real world o flow_id) _
            (unix_setup-Quiet json real world o flow_id)
            (λ control. Opens→Ordered (open_flow [] world o) _ (open_flow-Opens [] world o tt)))

  Udp_launch-Ordered : (world : World) (o : Options) → Ordered (Udp.launch json real world o).0
  unfolding Udp.launch
  Udp_launch-Ordered world o =
      >>=-Ordered (Unix.flow_of json world o.id) _ (Unix_flow_of-Quiet json real world o.id)
        (λ flow_id.
          >>=-Ordered (Udp.setup_service json real world o flow_id) _
            (udp_setup-Quiet json real world o flow_id)
            (λ control.
              Opens→Ordered (open_flow Udp.timeouts world o) _
                (open_flow-Opens Udp.timeouts world o (refl, (refl, tt)))))

  Helper_launch-Ordered : (world : World) (o : Options) → Ordered (Helper.launch json world o).0
  unfolding Helper.launch
  Helper_launch-Ordered world o =
      >>=-Ordered (Train.flow_of json world o.id) _ (Train_flow_of-Quiet json real world o.id)
        (λ flow_id.
          >>=-Ordered (Helper.setup_helper json world o) _ (helper_setup-Quiet json real world o)
            (λ control. Opens→Ordered (open_flow [] world o) _ (open_flow-Opens [] world o tt)))

  Passive_launch-Ordered : (world : World) (o : Options) → Ordered (Passive.launch json world o).0
  unfolding Passive.launch
  Passive_launch-Ordered world o =
      >>=-Ordered (Train.flow_of json world o.id) _ (Train_flow_of-Quiet json real world o.id)
        (λ flow_id.
          >>=-Ordered (Passive.setup_control json world o flow_id) _
            (passive_setup-Quiet json real world o flow_id)
            (λ control. Opens→Ordered (open_flow [] world o) _ (open_flow-Opens [] world o tt)))

  after_sigpipe :
      (world : World) (r : Result Options) (f : Options → Run J (Unit {0}))
      → ((o : Options) → Ordered (f o).0)
      → Ordered
          (attempt ignore_sigpipe Error.runtime_error world.ignores_sigpipe >> (lift r >>= f)).0
  after_sigpipe world r f h =
      >>=-Ordered (attempt ignore_sigpipe Error.runtime_error world.ignores_sigpipe) _
        (attempt-Quiet ignore_sigpipe Error.runtime_error world.ignores_sigpipe refl)
        (λ done. >>=-Ordered (lift r) f tt h)

  -- Whatever the command line is and whatever calls fail, each of the five programs, client.cc,
  -- client_eval.cc, passive_client.cc and the two clients of the inference service, sets its congestion
  -- control and TCP_NODELAY, enables the kernel's plugin and starts its threads only after the TCP
  -- connection stands.
  pub main-Ordered :
      (world : World) (argc optind : ℕ) (args : List (Letter × Option (List ℕ)))
      → Ordered (Train.main json world argc optind args).0
        × Ordered (Unix.main json real world argc optind args).0
        × Ordered (Udp.main json real world argc optind args).0
        × Ordered (Helper.main json world argc optind args).0
        × Ordered (Passive.main json world argc optind args).0
  unfolding Train.main Unix.main Udp.main Helper.main Passive.main
  main-Ordered world argc optind args = (
    >>=-Ordered (lift (parse_options Train.set_option argc optind args)) (Train.launch json world)
        tt (Train_launch-Ordered world),
    after_sigpipe world (parse_options Unix.set_option argc optind args)
        (Unix.launch json real world) (Unix_launch-Ordered world),
    after_sigpipe world (parse_options Unix.set_option argc optind args)
        (Udp.launch json real world) (Udp_launch-Ordered world),
    after_sigpipe world (parse_options Helper.set_option argc optind args)
        (Helper.launch json world) (Helper_launch-Ordered world),
    >>=-Ordered (lift (parse_options Train.set_option argc optind args)) (Passive.launch json world)
        tt (Passive_launch-Ordered world),
  )
