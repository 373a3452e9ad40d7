-- ===== src/App/Transitions.antt =====
-- Which state follows which.
use base_platform_zephyr_ble.Prelude.{ℕ, ◌≡◌, refl, Bool, ◌⊎◌, none, some, List, [], ◌∷◌, arith}
use base_platform_zephyr_ble.Eda.{Event, MsgQueue, running}
use base_platform_zephyr_ble.Events.{
  app_event_id, services_failed, network_joined, network_join_failed, dispatch_started,
  dispatch_finished, soft_error, hard_error,
}
use base_platform_zephyr_ble.App.{
  StateId, in_startup, in_listening, in_dispatching, in_soft_error, in_hard_error, App,
  transition_to, dispatch_event, run,
}

-- The lifecycle: the event that leads from each state to each other one.
pub data Arrow : StateId → ℕ → StateId → Type 0 where
  joined_first : (id : ℕ) → id ≡ app_event_id network_joined → Arrow in_startup id in_listening
  join_failed : (id : ℕ) → id ≡ app_event_id network_join_failed → Arrow in_startup id in_soft_error
  bring_up_failed : (id : ℕ) → id ≡ app_event_id services_failed → Arrow in_startup id in_hard_error
  dispatching : (id : ℕ) → id ≡ app_event_id dispatch_started → Arrow in_listening id in_dispatching
  listening_soft : (id : ℕ) → id ≡ app_event_id soft_error → Arrow in_listening id in_soft_error
  listening_hard : (id : ℕ) → id ≡ app_event_id hard_error → Arrow in_listening id in_hard_error
  dispatched : (id : ℕ) → id ≡ app_event_id dispatch_finished → Arrow in_dispatching id in_listening
  dispatching_soft : (id : ℕ) → id ≡ app_event_id soft_error → Arrow in_dispatching id in_soft_error
  dispatching_hard : (id : ℕ) → id ≡ app_event_id hard_error → Arrow in_dispatching id in_hard_error
  rejoined : (id : ℕ) → id ≡ app_event_id network_joined → Arrow in_soft_error id in_listening
  gave_up : (id : ℕ) → id ≡ app_event_id hard_error → Arrow in_soft_error id in_hard_error

module _ {Q : Type 0} (os : MsgQueue Event Q) (debug : Bool) where
  -- A transition enters the state that was asked for and remembers the one it left.
  pub transition_to_lem :
      (id : StateId) (a a' : App Q) (s : StateId)
      → a.machine.current ≡ some s
      → transition_to os debug id a ≡ running a'
      → (a'.machine.current ≡ some id) × (a'.machine.previous ≡ some s) × (a'.current_state_id ≡ id)
  unfolding transition_to
  transition_to_lem in_startup a a' s c h = ground arith
  transition_to_lem in_listening a a' s c h = ground arith
  transition_to_lem in_dispatching a a' s c h = ground arith
  transition_to_lem in_soft_error a a' s c h = ground arith
  transition_to_lem in_hard_error a a' s c h = ground arith

  -- What an event did to the machine that was in state `s`.
  abbrev pub Moved : StateId → ℕ → App Q → App Q → Type 0
  Moved s id a a' =
      (a'.machine ≡ a.machine)
      ⊎ ((t : StateId) × (a'.machine.current ≡ some t)
          × (a'.machine.previous ≡ some s)
          × Arrow s id t)

  -- An event that arrives before the machine has been started is ignored.
  pub run_before_start :
      (ids : List ℕ) (a : App Q) → a.machine.current ≡ none → run os debug ids a ≡ running a
  unfolding run dispatch_event
  run_before_start [] a c = refl
  run_before_start (id ∷ ids) a c = ground (arith, run_before_start ids a)
