-- ===== src/Api/Hub/Tests.antt =====
-- Runs of the hub, and a witness for each of its properties.
use packet_lab.Prelude.{◌≡◌, refl, true, false, List, [], ◌∷◌}
use packet_lab.Api.Hub.{
  Step, new_hub, close_send, without, is_in, send_or, send_all, close_all, register, unregister,
  run_round, run_step, run_steps, broadcasts, stops, sees_stop, registers, unregisters,
  sends_request,
}
use packet_lab.Api.Hub.Safe.{never_panics, new_hub-IsValid}

abbrev script : List Step
script =
    registers
    ∷ registers
    ∷ broadcasts 7
    ∷ sends_request
    ∷ unregisters 0
    ∷ unregisters 0
    ∷ stops
    ∷ sees_stop
    ∷ unregisters 1
    ∷ []

channels :
    (run_steps script new_hub).heap
    ≡ record { queue = 7 ∷ []; is_closed = true } ∷ record { queue = 7 ∷ []; is_closed = true } ∷ []
unfolding run_steps run_step run_round register unregister send_all send_or close_all close_send
    without is_in new_hub
channels = refl

never_panics_example : (run_steps script new_hub).panicked ≡ false
never_panics_example = never_panics script new_hub new_hub-IsValid
