-- ===== src/Pool/Names.antt =====
-- The names that include/thread_pool/fwd.hpp prints, and the calls of `Stop` in `ShutDown` of
-- src/thread_pool.cpp.
use Prim.Native.String.{String}
use cpp_mpmc_thread_pool.Base.{◌≡◌, refl, Bool, true, false, some, List, [], ◌∷◌}
use cpp_mpmc_thread_pool.Pool.{
  PoolState, created, running, paused, shutting_down, force_stopping, stopped, QueueFullPolicy,
  block, discard, overwrite, StopMode, graceful, force,
}
use cpp_mpmc_thread_pool.Config.{parse_policy}

abbrev pub state_name : PoolState → String
state_name created = "CREATED"
state_name running = "RUNNING"
state_name shutting_down = "SHUTTING_DOWN"
state_name force_stopping = "FORCE_STOPPING"
state_name stopped = "STOPPED"
state_name paused = "PAUSED"

abbrev pub policy_name : QueueFullPolicy → String
policy_name block = "Block"
policy_name discard = "Discard"
policy_name overwrite = "Overwrite"

abbrev pub mode_name : StopMode → String
mode_name graceful = "Graceful"
mode_name force = "Force"

pub data ShutDownOption : Type 0 where
  graceful_option force_option timeout_option : ShutDownOption

abbrev pub option_name : ShutDownOption → String
option_name graceful_option = "Graceful"
option_name force_option = "Force"
option_name timeout_option = "Timeout"

-- The calls of `Stop` once the first one of a shutdown with a timeout has left the pool in a state;
-- `late` says whether the deadline is over then.
abbrev pub escalate : (late : Bool) → PoolState → List StopMode
escalate late stopped = []
escalate true _ = force ∷ []
escalate false _ = []

-- The modes with which `ShutDown` calls `Stop`, the state behind the first call being given.
unfoldable pub shut_down : ShutDownOption → PoolState → (late : Bool) → List StopMode
shut_down graceful_option s late = graceful ∷ []
shut_down force_option s late = force ∷ []
shut_down timeout_option s late = graceful ∷ escalate late s

-- A name that is printed is read back.
policy_name-parse : (p : QueueFullPolicy) → parse_policy (policy_name p) ≡ some p
unfolding parse_policy
policy_name-parse block = refl
policy_name-parse discard = refl
policy_name-parse overwrite = refl

-- `Stop` leaves the pool stopped, so that the deadline is of no account.
timeout_graceful :
    (late : Bool) → shut_down timeout_option stopped late ≡ shut_down graceful_option stopped late
unfolding shut_down
timeout_graceful late = refl
