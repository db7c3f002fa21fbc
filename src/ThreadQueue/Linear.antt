-- ===== src/ThreadQueue/Linear.antt =====
-- The order in which the calls of the threads of src/base/thread_queue.h take effect.
use libolptnet.Base.{
  ℕ, drop, is_empty, ◌==◌, Bool-cases, ◌≡◌, refl, sym, ap, ◌∙◌, ◌≢◌, ◌⊎◌, inl, inr, Bool, true,
  false, none, some, List, [], ◌∷◌, ◌++◌, append_assoc, arith,
}
use mathlib.Core.Path.{subst}
use libolptnet.ThreadQueue.{push, pop, size}
use libolptnet.ThreadQueue.Threads.{
  Reply, pushed, popped, nothing, sized, Pc, idle, entering, inside, tested, copied, leaving,
  broken, Shared, done, Move, call, lock, push_back, see_some, see_none, front, front_of_none,
  pop_front, count, unlock, update, System, pick, start, Reach, here, later,
}

module _ {T : Type 0} where
  -- Between the lock and the unlock.
  abbrev pub critical : Pc T → Bool
  critical idle = false
  critical (entering c) = false
  critical _ = true

  -- The replies, the last one first, are those of the queue's operations, called one after the other on
  -- a new queue, which now holds `tasks`.
  abbrev pub Explains : List (Reply T) → List T → Type 0
  Explains [] tasks = tasks ≡ []
  Explains (pushed t ∷ h) tasks = (before : List T) × Explains h before × (tasks ≡ push before t)
  Explains (popped t ∷ h) tasks =
      (before : List T) × Explains h before × (pop before ≡ some (t, tasks))
  Explains (nothing ∷ h) tasks = Explains h tasks × (pop tasks ≡ none)
  Explains (sized n ∷ h) tasks = Explains h tasks × (size tasks ≡ n)

  -- What the deque is like for a thread that has tested it or read its front.
  abbrev pub Sees : List T → Pc T → Type 0
  Sees tasks tested = is_empty tasks ≡ false
  Sees tasks (copied t) = (rest : List T) × (tasks ≡ t ∷ rest)
  Sees tasks broken = ⊥
  Sees tasks _ = Unit {0}

  pub record Inv (m : Shared T) (pc : ℕ → Pc T) : Type 0 where
    pub owned : (i : ℕ) → critical (pc i) ≡ true → m.owner ≡ some i
    pub sees : (i : ℕ) → Sees m.tasks (pc i)
    pub explained : Explains m.history m.tasks

  Sees-outside : (tasks : List T) (p : Pc T) → critical p ≡ false → Sees tasks p
  Sees-outside tasks idle e = tt
  Sees-outside tasks (entering c) e = tt
  Sees-outside tasks (inside c) e = cc
  Sees-outside tasks tested e = cc
  Sees-outside tasks (copied t) e = cc
  Sees-outside tasks (leaving r) e = cc
  Sees-outside tasks broken e = cc

  pop-none : (tasks : List T) → is_empty tasks ≡ true → pop tasks ≡ none
  unfolding pop
  pop-none [] e = refl
  pop-none (t ∷ tasks) e = cc

  update-cases :
      (pc : ℕ → Pc T) (i : ℕ) (p : Pc T) (j : ℕ)
      → ((i ≡ j) × (update pc i p j ≡ p)) ⊎ ((i ≢ j) × (update pc i p j ≡ pc j))
  update-cases pc i p j = elim (Bool-cases (i == j)) [
    | inl e ↦ inl (ground arith, rw e refl)
    | inr e ↦ inr (ground arith, rw e refl)
  ]

  -- A thread is outside while the mutex is not its own.
  outside :
      {m : Shared T} {pc : ℕ → Pc T} (j : ℕ) → Inv m pc → m.owner ≢ some j → critical (pc j) ≡ false
  outside {m} {pc} j v n = elim (Bool-cases (critical (pc j))) [
    | inl c ↦ absurd (n (v.owned j c))
    | inr c ↦ c
  ]

  -- Thread `i` moves from `pc i` to `p`; the others stand outside.
  moved :
      {m : Shared T} {pc : ℕ → Pc T} (i : ℕ) (m' : Shared T) (p : Pc T)
      → Inv m pc
      → ((j : ℕ) → i ≢ j → m.owner ≢ some j)
      → (critical p ≡ true → m'.owner ≡ some i)
      → Sees m'.tasks p
      → Explains m'.history m'.tasks
      → Inv m' (update pc i p)
  moved {m} {pc} i m' p v alone o s e = record {
    owned = λ j k. elim (update-cases pc i p j) [
      | inl (same, u) ↦ o (sym (ap critical u) ∙ k) ∙ ap some same
      | inr (other, u) ↦ cc (outside j v (alone j other), ap critical u, k)
    ];
    sees = λ j. elim (update-cases pc i p j) [
      | inl (same, u) ↦ rw u s
      | inr (other, u) ↦ rw u (Sees-outside m'.tasks (pc j) (outside j v (alone j other)))
    ];
    explained = e;
  }

  -- The thread that holds the mutex is alone inside.
  alone :
      {m : Shared T} {pc : ℕ → Pc T} (i : ℕ)
      → Inv m pc
      → critical (pc i) ≡ true
      → (j : ℕ) → i ≢ j
      → m.owner ≢ some j
  alone i v c j other e = other (cc (v.owned i c))

  -- A thread that stays outside disturbs nobody.
  stays_outside :
      {m : Shared T} {pc : ℕ → Pc T} (i : ℕ) (p : Pc T)
      → Inv m pc
      → critical p ≡ false
      → Inv m (update pc i p)
  stays_outside {m} {pc} i p v o = record {
    owned = λ j k. elim (update-cases pc i p j) [
      | inl (same, u) ↦ cc (o, ap critical u, k)
      | inr (other, u) ↦ v.owned j (sym (ap critical u) ∙ k)
    ];
    sees = λ j. elim (update-cases pc i p j) [
      | inl (same, u) ↦ rw u (Sees-outside m.tasks p o)
      | inr (other, u) ↦ rw u (v.sees j)
    ];
    explained = v.explained;
  }

  -- What thread `i` sees inside is so, and nobody changes it.
  inside_step :
      {m : Shared T} {pc : ℕ → Pc T} {q : Pc T} (i : ℕ) (m' : Shared T) (p : Pc T)
      → Inv m pc
      → pc i ≡ q
      → critical q ≡ true
      → m'.owner ≡ m.owner
      → Sees m'.tasks p
      → Explains m'.history m'.tasks
      → Inv m' (update pc i p)
  inside_step {m} {pc} i m' p v at c o s e =
      let c' : critical (pc i) ≡ true = ap critical at ∙ c in
      moved i m' p v (alone i v c') (λ _. o ∙ v.owned i c') s e

  Move-Inv :
      {m m' : Shared T} {pc : ℕ → Pc T} {q p : Pc T} (i : ℕ)
      → Inv m pc
      → pc i ≡ q
      → Move i m q m' p
      → Inv m' (update pc i p)
  unfolding push pop size
  Move-Inv i v at (call c) = stays_outside i (entering c) v refl
  Move-Inv {m} i v at (lock {c} free) =
      moved i (record m { owner = some i }) (inside c) v (λ j other e. cc (free, e)) (λ _. refl) tt
        v.explained
  Move-Inv {m} {pc} i v at (push_back {t} e) =
      subst (λ k. Inv k (update pc i (leaving (pushed t)))) (sym e)
        (inside_step i (done (record m { tasks = push m.tasks t }) (pushed t)) (leaving (pushed t))
          v at refl refl tt (m.tasks, v.explained, refl))
  Move-Inv {m} i v at (see_some e) = inside_step i m tested v at refl refl e v.explained
  Move-Inv {m} {pc} i v at (see_none e e') =
      subst (λ k. Inv k (update pc i (leaving nothing))) (sym e')
        (inside_step i (done m nothing) (leaving nothing) v at refl refl tt
          (v.explained, pop-none m.tasks e))
  Move-Inv {m} i v at (front {t} rest e) =
      inside_step i m (copied t) v at refl refl (rest, e) v.explained
  Move-Inv {m} i v at (front_of_none e) = cc (subst (Sees m.tasks) at (v.sees i), ap is_empty e)
  Move-Inv {m} {pc} i v at (pop_front {t} e) =
      let (rest, f) = subst (Sees m.tasks) at (v.sees i) in
      subst (λ k. Inv k (update pc i (leaving (popped t)))) (sym e)
        (inside_step i (done (record m { tasks = drop 1 m.tasks }) (popped t)) (leaving (popped t))
          v at refl refl tt (m.tasks, v.explained, rw f refl))
  Move-Inv {m} {pc} i v at (count {n} e e') =
      subst (λ k. Inv k (update pc i (leaving (sized n)))) (sym e')
        (inside_step i (done m (sized n)) (leaving (sized n)) v at refl refl tt
          (v.explained, sym e))
  Move-Inv {m} {pc} i v at (unlock {r}) =
      moved i (record m { owner = none }) idle v (alone i v (ap critical at)) (λ k. cc) tt
        v.explained

  start-Inv : Inv (start T).mem (start T).pc
  start-Inv = record { owned = λ i e. cc; sees = λ i. tt; explained = refl }

  pub Reach-Inv : {s : System T} → Reach T s → Inv s.mem s.pc
  Reach-Inv here = start-Inv
  Reach-Inv (later r (pick i mv)) = Move-Inv i (Reach-Inv r) refl mv

  -- In every state that is reached, at most one thread is between the lock and the unlock.
  pub mutual_exclusion :
      {s : System T}
      → Reach T s
      → (i j : ℕ) → critical (s.pc i) ≡ true
      → critical (s.pc j) ≡ true
      → i ≡ j
  mutual_exclusion r i j c d = cc ((Reach-Inv r).owned i c, (Reach-Inv r).owned j d)

  -- In every state that steps of any number of threads reach, where the lock, each access to the
  -- deque and the unlock are steps of their own: the replies that the calls of the queue have got
  -- so far, in the order in which they touched the deque, are those of `push`, `pop` and `size`
  -- called one after the other on a new queue, which would now hold what the deque holds, and no
  -- thread has read the front of an empty deque.
  pub queue_linearizable :
      {s : System T} → Reach T s → Explains s.mem.history s.mem.tasks × ((i : ℕ) → s.pc i ≢ broken)
  queue_linearizable {s} r =
      ((Reach-Inv r).explained, λ i e. subst (Sees s.mem.tasks) e ((Reach-Inv r).sees i))

  -- What was pushed and what was popped, in order of time.
  abbrev pub pushes : List (Reply T) → List T
  pushes [] = []
  pushes (pushed t ∷ h) = pushes h ++ t ∷ []
  pushes (popped t ∷ h) = pushes h
  pushes (nothing ∷ h) = pushes h
  pushes (sized n ∷ h) = pushes h

  abbrev pub pops : List (Reply T) → List T
  pops [] = []
  pops (pushed t ∷ h) = pops h
  pops (popped t ∷ h) = pops h ++ t ∷ []
  pops (nothing ∷ h) = pops h
  pops (sized n ∷ h) = pops h

  front_of : (before tasks : List T) (t : T) → pop before ≡ some (t, tasks) → before ≡ t ∷ tasks
  unfolding pop
  front_of [] tasks t e = cc
  front_of (u ∷ before) tasks t e = cc

  Explains-fifo :
      (h : List (Reply T)) (tasks : List T) → Explains h tasks → pushes h ≡ pops h ++ tasks
  unfolding push
  Explains-fifo [] tasks e = sym e
  Explains-fifo (pushed t ∷ h) tasks (before, e, f) =
      ap (λ q. q ++ t ∷ []) (Explains-fifo h before e)
      ∙ append_assoc (pops h) before (t ∷ [])
      ∙ ap (λ q. pops h ++ q) (sym f)
  Explains-fifo (popped t ∷ h) tasks (before, e, f) =
      Explains-fifo h before e
      ∙ ap (λ q. pops h ++ q) (front_of before tasks t f)
      ∙ sym (append_assoc (pops h) (t ∷ []) tasks)
  Explains-fifo (nothing ∷ h) tasks (e, f) = Explains-fifo h tasks e
  Explains-fifo (sized n ∷ h) tasks (e, f) = Explains-fifo h tasks e

  -- In every state that is reached, what was pushed is what was popped, in the same order, followed
  -- by what the deque holds.
  pub queue_fifo :
      {s : System T} → Reach T s → pushes s.mem.history ≡ pops s.mem.history ++ s.mem.tasks
  queue_fifo {s} r = Explains-fifo s.mem.history s.mem.tasks (Reach-Inv r).explained
