-- ===== src/Utils/Ring/Refine.antt =====
-- The ring holds a queue: what its elements are, oldest first, and that no caller can tell it from
-- a bounded list.
use base_platform_zephyr_ble.Prelude.{
  ℕ, zero, suc, ◌+◌, ◌-◌, ◌%◌, ◌≤◌, ◌<◌, ◌≡◌, ◌≢◌, refl, ap, ap₂, ◌∙◌, Bool, true, false, ◌&&◌,
  Option, none, some, List, [], ◌∷◌, ◌++◌, length, set, length-set, length-replicate, get_or, ltb,
  ◌==◌, if◌then◌else◌, arith,
}
use native.Mathlib.Nat.{mod-add-mod, mod-eq_of_lt, mod-eq-sub-mod}
use native.Mathlib.Decide.{dec_lt}
use base_platform_zephyr_ble.Utils.Ring.{Ring, empty, push, pop, clear}

get_or-set {ℓ} :
    {A : Type ℓ} (xs : List A) (i j : ℕ) (v d : A)
    → get_or (set xs i v) j d ≡ (if i == j && ltb i (length xs) then v else get_or xs j d)
get_or-set [] i j v d = ground arith
get_or-set (x ∷ xs) zero zero v d = ground arith
get_or-set (x ∷ xs) zero (suc j) v d = ground arith
get_or-set (x ∷ xs) (suc i) zero v d = ground arith
get_or-set (x ∷ xs) (suc i) (suc j) v d = ground (arith, get_or-set xs i j v d)

module _ {T : Type 0} (blank : T) (capacity : ℕ) where
  -- The bounded queue that the class promises.
  pub data Op : Type 0 where
    op_push : T → Op
    op_pop op_clear : Op

  abbrev pub list_step : Op → List T → List T × Bool × Option T
  list_step (op_push x) q =
      if ltb (length q) capacity then (q ++ (x ∷ []), true, none) else (q, false, none)
  list_step op_pop [] = ([], false, none)
  list_step op_pop (x ∷ q) = (q, true, some x)
  list_step op_clear q = ([], true, none)

  -- The elements from index `h` on, `n` of them.
  abbrev pub elements : List T → ℕ → ℕ → List T
  elements storage h zero = []
  elements storage h (suc n) = get_or storage h blank ∷ elements storage ((h + 1) % capacity) n

  abbrev pub contents : Ring T → List T
  contents q = elements q.storage q.head q.count

  length-elements : (storage : List T) (h n : ℕ) → length (elements storage h n) ≡ n
  length-elements storage h zero = refl
  length-elements storage h (suc n) = ap suc (length-elements storage ((h + 1) % capacity) n)

  pub record IsValid (q : Ring T) : Type 0 where
    pub size : length q.storage ≡ capacity
    pub room : 0 < capacity
    pub first : q.head < capacity
    pub within : q.count ≤ capacity
    pub last : q.tail ≡ (q.head + q.count) % capacity

  -- The index that is `k` places on is another one, short of a whole turn.
  index-ne : (h k : ℕ) → h < capacity → 0 < k → k < capacity → (h + k) % capacity ≢ h
  index-ne h k a b c = elim (dec_lt (h + k) capacity) [
    | yes p ↦ omega (arith, mod-eq_of_lt p)
    | no p ↦ omega (
      arith,
      mod-eq-sub-mod {n = h + k} {m = capacity} (omega arith),
      mod-eq_of_lt {n = h + k - capacity} {m = capacity} (omega arith),
    )
  ]

  index-add : (h k : ℕ) → ((h + 1) % capacity + k) % capacity ≡ (h + suc k) % capacity
  index-add h k = rw mod-add-mod (ap (λ n. n % capacity) (omega arith))

  -- A write behind the last element adds it and disturbs none.
  elements-set :
      (storage : List T) (h n i : ℕ) (x : T)
      → length storage ≡ capacity
      → h < capacity
      → n < capacity
      → i ≡ (h + n) % capacity
      → elements (set storage i x) h (suc n) ≡ elements storage h n ++ (x ∷ [])
  elements-set storage h zero i x s a b e =
      let at : i ≡ h = e ∙ ap (λ n. n % capacity) (omega arith) ∙ mod-eq_of_lt a in
      ground (arith, get_or-set storage i h x blank)
  elements-set storage h (suc n) i x s a b e =
      let ne : i ≢ h = λ d. index-ne h (suc n) a (omega arith) b (ground arith) in
      ap₂ ◌∷◌ (ground (arith, get_or-set storage i h x blank)) (
        elements-set storage ((h + 1) % capacity) n i x s (omega arith) (omega arith)
          (ground (arith, index-add h n)))

  elements_pred :
      (storage : List T) (h n : ℕ)
      → 0 < n
      → elements storage h n
        ≡ get_or storage h blank ∷ elements storage ((h + 1) % capacity) (n - 1)
  elements_pred storage h zero some_left = elim some_left [ ]
  elements_pred storage h (suc n) some_left = ap (λ k. elements storage h (suc k)) (omega arith)

  empty-IsValid : 0 < capacity → IsValid (empty blank capacity)
  empty-IsValid room = record {
    size = length-replicate capacity blank;
    room = room;
    first = room;
    within = omega arith;
    last = omega arith;
  }

  push-IsValid : (x : T) (q : Ring T) → IsValid q → IsValid (push blank capacity x q).0
  unfolding push
  push-IsValid x q v =
      let turn : (q.tail + 1) % capacity ≡ (q.head + (q.count + 1)) % capacity =
        rw (v.last, mod-add-mod) (ap (λ n. n % capacity) (omega arith)) in
      ground (arith, length-set q.storage q.tail x)

  pop-IsValid : (q : Ring T) → IsValid q → IsValid (pop blank capacity q).0
  unfolding pop
  pop-IsValid q v =
      let below : (q.head + 1) % capacity < capacity = let r = v.room in omega arith in
      ground (arith, index-add q.head (q.count - 1), ap (λ n. (q.head + n) % capacity))

  -- A call on the ring.
  abbrev pub step : Op → Ring T → Ring T × Bool × Option T
  step (op_push x) q = let (q', stored) = push blank capacity x q in (q', stored, none)
  step op_pop q =
      let (q', out) = pop blank capacity q in (q', elim out [ none ↦ false | some x ↦ true ], out)
  step op_clear q = (clear blank capacity q, true, none)

  step-IsValid : (op : Op) (q : Ring T) → IsValid q → IsValid (step op q).0
  step-IsValid (op_push x) q v = push-IsValid x q v
  step-IsValid op_pop q v = pop-IsValid q v
  step-IsValid op_clear q v = let r = v.room in ground (arith, v.size)

  -- A call on the ring and the same call on the list agree, in the result and in what is left.
  Agrees : Op → Ring T → Type 0
  Agrees op q =
      (contents (step op q).0 ≡ (list_step op (contents q)).0)
      × ((step op q).1 ≡ (list_step op (contents q)).1)
      × ((step op q).2 ≡ (list_step op (contents q)).2)

  push-Agrees : (x : T) (q : Ring T) → IsValid q → Agrees (op_push x) q
  unfolding push Agrees
  push-Agrees x q v = ground (
    arith,
    length-elements q.storage q.head q.count,
    elements-set q.storage q.head q.count q.tail x,
    ap (elements (set q.storage q.tail x) q.head) more,
  )
    where
      more : q.count + 1 ≡ suc q.count
      more = omega arith

  pop-Agrees : (q : Ring T) → IsValid q → Agrees op_pop q
  unfolding pop Agrees
  pop-Agrees q v = ground (arith, elements_pred q.storage q.head q.count)

  step_refines : (op : Op) (q : Ring T) → IsValid q → Agrees op q
  unfolding Agrees
  step_refines (op_push x) q v = push-Agrees x q v
  step_refines op_pop q v = pop-Agrees q v
  step_refines op_clear q v = (refl, refl, refl)

  -- The results of a sequence of calls, and what is in the queue at the end.
  abbrev pub run : List Op → Ring T → List (Bool × Option T) × List T
  run [] q = ([], contents q)
  run (op ∷ ops) q =
      let (q', done, out) = step op q in
      let (results, left) = run ops q' in ((done, out) ∷ results, left)

  abbrev pub list_run : List Op → List T → List (Bool × Option T) × List T
  list_run [] q = ([], q)
  list_run (op ∷ ops) q =
      let (q', done, out) = list_step op q in
      let (results, left) = list_run ops q' in ((done, out) ∷ results, left)

  run-eq-list_run : (ops : List Op) (q : Ring T) → IsValid q → run ops q ≡ list_run ops (contents q)
  unfolding Agrees
  run-eq-list_run [] q v = refl
  run-eq-list_run (op ∷ ops) q v =
      let (left, done, out) = step_refines op q v in
      simp (run-eq-list_run ops (step op q).0 (step-IsValid op q v), left, done, out)

  -- From an empty queue of positive capacity, no sequence of push, pop and clear tells the ring
  -- from the bounded list that the class promises: every result is the same, and so are the
  -- elements left.
  pub run_refines :
      (ops : List Op) → 0 < capacity → run ops (empty blank capacity) ≡ list_run ops []
  run_refines ops room = run-eq-list_run ops (empty blank capacity) (empty-IsValid room)
