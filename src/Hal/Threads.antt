-- ===== src/Hal/Threads.antt =====
-- src/hal/os/zephyr/os_zephyr.cpp: the pool that threads draw their stacks from, and the thread that
-- stands in for an idle hook. A thread's entry function, its argument and a callback are names. The
-- queue, the semaphore, the mutex and the timer of that file are thin calls of Zephyr's.
use mathlib.Core.Path.{subst}
use base_platform_zephyr_ble.Prelude.{
  ℕ, suc, ◌+◌, ◌-◌, ◌≤◌, ◌≡◌, refl, ◌∙◌, Bool, true, false, Option, none, some, List, [], ◌∷◌,
  length, drop, leb→le, get_elem?-set_ne, get_elem?-set_self, length-set, set, get_elem?, replicate,
  leb, if◌then◌else◌, arith, min, Bool-cases, inl, inr,
}

abbrev pub max_threads : ℕ
max_threads = 8

pub record ThreadStart : Type 0 where
  pub entry : ℕ
  pub arg : ℕ

-- A `k_thread_create`: the stack of the pool and the start record that it is given, by their
-- indices, and the priority.
pub record Created : Type 0 where
  pub stack : ℕ
  pub start : ℕ
  pub priority : ℕ

-- The statics of the file. `idle_threads` counts the creations of the idle thread.
pub record Os : Type 0 where
  pub next_stack_index : ℕ
  pub thread_starts : List (Option ThreadStart)
  pub created : List Created
  pub idle_callback : Option ℕ
  pub idle_thread_started : Bool
  pub idle_threads : ℕ

abbrev pub powered_up : Os
powered_up = record {
  next_stack_index = 0;
  thread_starts = replicate max_threads none;
  created = [];
  idle_callback = none;
  idle_thread_started = false;
  idle_threads = 0;
}

-- `Thread::create`; a pool that is used up only logs an error.
unfoldable pub create : ThreadStart → ℕ → Os → Os
create start priority o =
    if leb max_threads o.next_stack_index
    then o
    else (let index = o.next_stack_index in
        record o {
          next_stack_index = index + 1;
          thread_starts = set o.thread_starts index (some start);
          created = record { stack = index; start = index; priority = priority } ∷ o.created;
        })

unfoldable pub register_idle_callback : ℕ → Os → Os
register_idle_callback callback o =
    let o' = record o { idle_callback = some callback } in
    if o'.idle_thread_started
    then o'
    else record o' { idle_thread_started = true; idle_threads = o'.idle_threads + 1 }

-- Creations one after the other, the latest at the front.
unfoldable pub creates : List (ThreadStart × ℕ) → Os → Os
unfolding create
creates [] o = o
creates ((start, priority) ∷ older) o = create start priority (creates older o)

-- Thread `k` has stack `k` of the pool and start record `k`, and that record still holds what the
-- thread was created with.
unfoldable pub Granted : List (ThreadStart × ℕ) → List (Option ThreadStart) → List Created → Type 0
Granted [] starts created = created ≡ []
Granted ((start, priority) ∷ older) starts created =
    (rest : List Created) × (created
      ≡ record { stack = length older; start = length older; priority = priority } ∷ rest)
    × (get_elem? starts (length older) ≡ some (some start))
    × Granted older starts rest

-- A start record beyond those in use may be written.
Granted-set :
    (requests : List (ThreadStart × ℕ)) (starts : List (Option ThreadStart))
    (created : List Created) (i : ℕ) (start : ThreadStart)
    → length requests ≤ i
    → Granted requests starts created
    → Granted requests (set starts i (some start)) created
unfolding Granted
Granted-set [] starts created i start h g = g
Granted-set (request ∷ older) starts created i start h (rest, made, kept, g) = (
  rest,
  made,
  get_elem?-set_ne starts (some start) (omega arith) ∙ kept,
  Granted-set older starts rest i start (omega arith) g,
)

-- The creations that were granted are the first eight.
abbrev pub granted : List (ThreadStart × ℕ) → List (ThreadStart × ℕ)
granted requests = drop (length requests - max_threads) requests

pub record Pooled (requests : List (ThreadStart × ℕ)) (o : Os) : Type 0 where
  pub next : o.next_stack_index ≡ min (length requests) max_threads
  pub size : length o.thread_starts ≡ max_threads
  pub threads : Granted (granted requests) o.thread_starts o.created

create-Pooled :
    (start : ThreadStart) (priority : ℕ) (older : List (ThreadStart × ℕ)) (o : Os)
    → Pooled older o
    → Pooled ((start, priority) ∷ older) (create start priority o)
unfolding create Granted
create-Pooled start priority older o p = elim (Bool-cases (leb max_threads o.next_stack_index)) [
  | inl full ↦
      let over : max_threads ≤ length older =
        omega (arith, p.next, leb→le max_threads o.next_stack_index full) in
      let past : suc (length older) - max_threads ≡ suc (length older - max_threads) =
        omega arith in
      simp full
        (record { next = omega (arith, p.next); size = p.size; threads = rw past p.threads })
  | inr free ↦
      let here : o.next_stack_index ≡ length older = ground (arith, p.next) in
      let before : length older - max_threads ≡ 0 = ground (arith, p.next) in
      let after : suc (length older) - max_threads ≡ 0 = ground (arith, p.next) in
      let so_far : Granted older o.thread_starts o.created =
        subst (λ k. Granted (drop k older) o.thread_starts o.created) before p.threads in
      let fits : leb max_threads (length older) ≡ false = ground (arith, p.next) in
      rw (here, fits)
        (record {
          next = omega (arith, before, after);
          size = length-set o.thread_starts (length older) (some start) ∙ p.size;
          threads = rw after (
            o.created,
            refl,
            get_elem?-set_self o.thread_starts (length older) (some start)
                (omega (arith, p.size, after)),
            Granted-set older o.thread_starts o.created (length older) start (omega arith) so_far,
          );
        })
]

-- Threads created in any number from the start: the first eight each get a stack and a start record
-- of their own, which no later creation takes or overwrites, and the others get none.
pub creates-Pooled :
    (requests : List (ThreadStart × ℕ)) → Pooled requests (creates requests powered_up)
unfolding creates Granted
creates-Pooled [] = record { next = refl; size = refl; threads = refl }
creates-Pooled ((start, priority) ∷ older) =
    create-Pooled start priority older (creates older powered_up) (creates-Pooled older)
