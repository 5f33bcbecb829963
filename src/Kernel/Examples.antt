-- ===== src/Kernel/Examples.antt =====
-- A run of the kernel.
use agent_sandbox.Common.Int.{pos}
use agent_sandbox.Common.{List, arith, map, ◌≡◌, ℕ, none, ◌∷◌, [], some, refl}
use agent_sandbox.Kernel.{TwinConfig, new, default_context}
use agent_sandbox.Kernel.Log.{perform_all, IsNumbered, new-IsNumbered, perform, Call}
use agent_sandbox.Kernel.Log.{put_metadata, log_event, start_session}

abbrev config : TwinConfig
config = record { seed = 42; start_time_unix_ms = pos 1000 }

abbrev calls : List (Call ℕ)
calls =
    log_event "/a" none "ok" "first" none default_context
    ∷ put_metadata "k" "v"
    ∷ start_session "s1"
    ∷ log_event "/b" none "ok" "second" none default_context
    ∷ []

last_event :
    map (λ e. e.session_id) (perform_all 0 calls (new 0 config)).events ≡ none ∷ some "s1" ∷ []
unfolding perform_all perform new
last_event = refl

new-IsNumbered_example : IsNumbered (perform_all 0 calls (new 0 config))
new-IsNumbered_example = new-IsNumbered 0 config calls (omega arith)
