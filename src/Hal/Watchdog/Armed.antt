-- ===== src/Hal/Watchdog/Armed.antt =====
-- What holds of the watchdog however it is called.
use base_platform_zephyr_ble.Prelude.{
  ℕ, ◌++◌, ◌≤◌, ◌≡◌, refl, true, Option, none, some, List, [], ◌∷◌, arith, Bool-cases, ltb, ◌||◌,
  ap, inl, inr,
}
use base_platform_zephyr_ble.Hal.Watchdog.{
  Call, install, setup, feed, Driver, Watchdog, watchdog, min_timeout_ms, max_timeout_ms, arm,
  start_channel, set_timeout, refresh,
}

-- Whether a history feeds no channel, and whether it feeds one channel and does nothing else.
unfoldable pub NoFeed : List Call → Type 0
NoFeed [] = Unit
NoFeed (call ∷ calls) = let rest = NoFeed calls in elim call [ feed channel ↦ ⊥ | _ ↦ rest ]

unfoldable pub Feeds : ℕ → List Call → Type 0
Feeds channel [] = Unit
Feeds channel (call ∷ calls) =
    let rest = Feeds channel calls in elim call [ feed fed ↦ (fed ≡ channel) × rest | _ ↦ ⊥ ]

pub data Op : Type 0 where
  sets : ℕ → Op
  refreshes : Op

module _ (os : Driver) where
  -- A watchdog that never started has not been fed; one that did runs with a time within the
  -- bounds, on the channel that its one successful installation and setup gave it, and has only
  -- been fed since.
  pub record Running (channel time : ℕ) (calls : List Call) : Type 0 where
    pub feeds : List Call
    pub before : List Call
    pub history : calls ≡ feeds ++ setup ∷ install time ∷ before
    pub fed : Feeds channel feeds
    pub quiet : NoFeed before
    pub low : min_timeout_ms ≤ time
    pub high : time ≤ max_timeout_ms
    pub installed : os.installed (install time ∷ before) ≡ some channel
    pub set_up : os.succeeds (setup ∷ install time ∷ before) ≡ true

  unfoldable pub GuardedAs : Option ℕ → ℕ → List Call → Type 0
  GuardedAs none time calls = (time ≡ 0) × NoFeed calls
  GuardedAs (some channel) time calls = Running channel time calls

  abbrev pub Guarded : Watchdog → Type 0
  Guarded w = GuardedAs w.channel_id w.timeout_ms w.calls

  start_channel-Guarded :
      (o : Option ℕ) (time : ℕ) (calls : List Call)
      → os.installed (install time ∷ calls) ≡ o
      → min_timeout_ms ≤ time
      → time ≤ max_timeout_ms
      → NoFeed calls
      → Guarded
          (start_channel os o time
            (record { channel_id = none; timeout_ms = 0; calls = install time ∷ calls })).0
  unfolding start_channel NoFeed Feeds GuardedAs
  start_channel-Guarded none time calls e low high n = (refl, n)
  start_channel-Guarded (some channel) time calls e low high n =
      elim (Bool-cases (os.succeeds (setup ∷ install time ∷ calls))) [
        | inl g ↦ simp g (record {
          feeds = [];
          before = calls;
          history = refl;
          fed = tt;
          quiet = n;
          low = low;
          high = high;
          installed = e;
          set_up = g;
        })
        | inr g ↦ simp g (refl, n)
      ]

  arm-Guarded :
      (time : ℕ) (calls : List Call)
      → NoFeed calls
      → Guarded (arm os time (record { channel_id = none; timeout_ms = 0; calls = calls })).0
  unfolding arm GuardedAs
  arm-Guarded time calls n =
      elim (Bool-cases (ltb time min_timeout_ms || ltb max_timeout_ms time)) [
        | inl out ↦ rw out (refl, n)
        | inr inside ↦ (elim (Bool-cases (os.is_ready calls)) [
          | inl ready ↦
              rw (inside, ready)
                (start_channel-Guarded (os.installed (install time ∷ calls)) time calls refl
                  (ground arith) (ground arith) n)
          | inr absent ↦ rw (inside, absent) (refl, n)
        ])
      ]

  -- On the parts of a watchdog.
  set_timeout-Guarded :
      (channel_id : Option ℕ) (time limit : ℕ) (calls : List Call)
      → GuardedAs channel_id time calls
      → Guarded
          (set_timeout os limit
            (record { channel_id = channel_id; timeout_ms = time; calls = calls })).0
  unfolding set_timeout GuardedAs
  set_timeout-Guarded none time limit calls (zero_time, n) =
      rw zero_time (arm-Guarded limit calls n)
  set_timeout-Guarded (some channel) time limit calls g = g

  refresh-Guarded :
      (channel_id : Option ℕ) (time : ℕ) (calls : List Call)
      → GuardedAs channel_id time calls
      → Guarded
          (refresh os (record { channel_id = channel_id; timeout_ms = time; calls = calls })).0
  unfolding refresh GuardedAs Feeds
  refresh-Guarded none time calls g = g
  refresh-Guarded (some channel) time calls g =
      elim (Bool-cases (os.succeeds (feed channel ∷ calls))) [
        | inl ok ↦ simp ok fed_again
        | inr bad ↦ simp bad fed_again
      ]
    where
      fed_again : Running channel time (feed channel ∷ calls)
      fed_again = record {
        feeds = feed channel ∷ g.feeds;
        before = g.before;
        history = ap (λ k. feed channel ∷ k) g.history;
        fed = (refl, g.fed);
        quiet = g.quiet;
        low = g.low;
        high = g.high;
        installed = g.installed;
        set_up = g.set_up;
      }

  unfoldable pub run : List Op → Watchdog → Watchdog
  run [] w = w
  run (sets time ∷ ops) w = run ops (set_timeout os time w).0
  run (refreshes ∷ ops) w = run ops (refresh os w).0

  pub run_keeps : (ops : List Op) (w : Watchdog) → Guarded w → Guarded (run ops w)
  unfolding run
  run_keeps [] w g = g
  run_keeps (sets time ∷ ops) w g =
      run_keeps ops (set_timeout os time w).0
        (set_timeout-Guarded w.channel_id w.timeout_ms time w.calls g)
  run_keeps (refreshes ∷ ops) w g =
      run_keeps ops (refresh os w).0 (refresh-Guarded w.channel_id w.timeout_ms w.calls g)

  -- However the watchdog is called from its construction on: before it runs it has not been fed;
  -- and once it runs its time is within the bounds, it was started by one installation of that time
  -- and one setup that succeeded, and since then it has been fed on its own channel and nothing
  -- else.
  pub run-Guarded : (ops : List Op) → Guarded (run ops watchdog)
  unfolding NoFeed GuardedAs
  run-Guarded ops = run_keeps ops watchdog (refl, tt)
