-- ===== src/State.antt =====
-- `AppState.new` (runtimes/ts/pkg/state.ts): the connection to the message server, and the stream of
-- the project. The connection is the world's `client`; what the server answers is a parameter.
pub mod Streams
use litefunctions.Prelude.{Bool, true, false, not, ◌&&◌, List, [], ◌∷◌, ◌++◌, if◌then◌else◌}
use litefunctions.Prelude.Exec.{
  Result, ok, err, Exec, pure, throw, lift, attempt, ◌>>=◌, ◌>>◌, continue,
}
use litefunctions.Text.{Text, codes, includes, to_lower_case}
use litefunctions.Conf.{Settings}
use litefunctions.World.{World}

-- What the calls of the package `nats` come to.
pub record Broker : Type 0 where
  -- `connect({ servers })`
  pub connect : Text → Result (Unit {0})
  -- `nc.jetstreamManager()`
  pub manager : Result (Unit {0})
  -- `jsm.streams.add({ name, subjects })`
  pub add_stream : Text → List Text → Result (Unit {0})

-- `${settings.project}.>`
abbrev pub stream_subject : Settings → Text
stream_subject s = s.project ++ codes ".>"

-- the handler of an error of `streams.add`
unfoldable pub ignore_existing : Text → Exec World (Unit {0})
unfolding includes to_lower_case
ignore_existing error =
    let text = to_lower_case error in
    if not (includes (codes "name already in use") text)
      && not (includes (codes "stream name already in use") text)
    then throw error
    else pure tt

unfoldable pub app_state_new : Broker → Settings → Exec World (Unit {0})
unfolding ignore_existing
app_state_new b s = do
  lift (b.connect s.nats_url)
  lift b.manager
  attempt ignore_existing pure (b.add_stream s.project (stream_subject s ∷ []))
