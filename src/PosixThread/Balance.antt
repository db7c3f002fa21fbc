-- ===== src/PosixThread/Balance.antt =====
-- How often src/base/posix_thread.h calls the methods that it starts threads for, and deletes their
-- helpers.
use libolptnet.Base.{
  ℕ, ◌+◌, ℤ, pos, ◌==ℤ◌, ok, Returns, Returns->>=, Returns-map, ◌==◌, if◌then◌else◌, Bool-cases,
  ◌≡◌, refl, sym, ap, ◌∙◌, inl, inr, Bool, true, false, ◌||◌, not, Option, none, some, List, [],
  ◌∷◌, ◌++◌, arith,
}
use libolptnet.PosixThread.{
  ThreadHelper, Process, empty_process, find, delete, thread_create, create_thread, remove,
  thread_function, ThreadEvent, creates, begins, has, happen, happen_all,
}

module _ {O F : Type 0} where
  -- The pointers.
  abbrev pub pointers : List (ℕ × ThreadHelper O F) → List ℕ
  pointers [] = []
  pointers ((p, h) ∷ hs) = p ∷ pointers hs

  -- How many of the methods a test holds for.
  abbrev pub count : (ThreadHelper O F → Bool) → List (ThreadHelper O F) → ℕ
  count test [] = 0
  count test (h ∷ hs) = (if test h then 1 else 0) + count test hs

  abbrev pub count_live : (ThreadHelper O F → Bool) → List (ℕ × ThreadHelper O F) → ℕ
  count_live test [] = 0
  count_live test ((p, h) ∷ hs) = (if test h then 1 else 0) + count_live test hs

  -- The methods that threads were asked for.
  abbrev pub asked : List (ThreadEvent O F) → List (ThreadHelper O F)
  asked [] = []
  asked (creates h answer ∷ es) = h ∷ asked es
  asked (begins p ∷ es) = asked es

  -- `pthread_create` has failed once.
  abbrev pub fails : List (ThreadEvent O F) → Bool
  fails [] = false
  fails (creates h answer ∷ es) = not (answer.0 ==ℤ pos 0) || fails es
  fails (begins p ∷ es) = fails es

  -- The helpers that are alive are those of the threads that have not begun.
  abbrev pub Held : Process O F → Type 0
  Held s = s.starting ≡ pointers s.helpers

  pointers-append :
      (hs : List (ℕ × ThreadHelper O F)) (p : ℕ) (h : ThreadHelper O F)
      → pointers (hs ++ (p, h) ∷ []) ≡ pointers hs ++ p ∷ []
  pointers-append [] p h = refl
  pointers-append ((q, g) ∷ hs) p h = ap (λ t. q ∷ t) (pointers-append hs p h)

  count_live-append :
      (test : ThreadHelper O F → Bool) (hs : List (ℕ × ThreadHelper O F)) (p : ℕ)
      (h : ThreadHelper O F)
      → count_live test (hs ++ (p, h) ∷ []) ≡ count_live test hs + (if test h then 1 else 0)
  count_live-append test [] p h = omega arith
  count_live-append test ((q, g) ∷ hs) p h = omega (arith, count_live-append test hs p h)

  count-append :
      (test : ThreadHelper O F → Bool) (hs : List (ThreadHelper O F)) (h : ThreadHelper O F)
      → count test (hs ++ h ∷ []) ≡ count test hs + (if test h then 1 else 0)
  count-append test [] h = omega arith
  count-append test (g ∷ hs) h = omega (arith, count-append test hs h)

  pointers-delete :
      (p : ℕ) (hs : List (ℕ × ThreadHelper O F)) → pointers (delete p hs) ≡ remove p (pointers hs)
  unfolding delete remove
  pointers-delete p [] = refl
  pointers-delete p ((q, h) ∷ hs) = ground (arith, pointers-delete p hs)

  -- A pointer that is there leads to a helper, and deleting it takes that one away.
  found :
      (p : ℕ) (hs : List (ℕ × ThreadHelper O F))
      → has p (pointers hs) ≡ true
      → (h : ThreadHelper O F) × (find p hs ≡ some h)
        × ((test : ThreadHelper O F → Bool)
            → count_live test hs ≡ count_live test (delete p hs) + (if test h then 1 else 0))
  unfolding find delete
  found p [] e = cc
  found p ((q, g) ∷ hs) e = elim (Bool-cases (p == q)) [
    | inl same ↦ (g, rw same refl, λ test. rw same (omega arith))
    | inr other ↦
        let (h, there, counts) = found p hs (ground arith) in
        (h, rw other there, λ test. rw other (omega (arith, counts test)))
  ]

  -- None after a failure; else what is alive is held, and the calls and what is alive were there in `s` or asked for.
  abbrev Kept : List (ThreadEvent O F) → Process O F → Option (Process O F) → Type 0
  Kept es s none = fails es ≡ true
  Kept es s (some t) =
      (fails es ≡ false)
      × Held t
      × ((test : ThreadHelper O F → Bool)
          → count test t.calls + count_live test t.helpers
            ≡ count test s.calls + count_live test s.helpers + count test (asked es))

  created-Kept :
      (h : ThreadHelper O F) (answer : ℤ × ℤ) (s : Process O F)
      → Held s
      → Returns (Kept (creates h answer ∷ []) s) (happen (creates h answer) s)
  unfolding happen create_thread thread_create
  created-Kept h answer s held = elim (Bool-cases (answer.0 ==ℤ pos 0)) [
    | inr bad ↦ rw (bad, happen, create_thread, thread_create) (ground arith)
    | inl good ↦
        rw (good, happen, create_thread, thread_create)
          (
            rw good refl,
            ap (λ t. t ++ s.next ∷ []) held ∙ sym (pointers-append s.helpers s.next h),
            λ test. omega (arith, count_live-append test s.helpers s.next h),
          )
  ]

  begun-Kept :
      (p : ℕ) (s : Process O F) → Held s → Returns (Kept (begins p ∷ []) s) (happen (begins p) s)
  unfolding happen thread_function
  begun-Kept p s held = elim (Bool-cases (has p s.starting)) [
    | inr stranger ↦ rw (stranger, happen) (refl, held, λ test. omega arith)
    | inl there ↦
        let (h, alive, counts) = found p s.helpers (ap (has p) (sym held) ∙ there) in
        rw (there, happen)
          (rw (alive, thread_function)
            (
              refl,
              ap (remove p) held ∙ sym (pointers-delete p s.helpers),
              λ test. omega (arith, counts test, count-append test s.calls h),
            ))
  ]

  happen-Kept :
      (e : ThreadEvent O F) (s : Process O F) → Held s → Returns (Kept (e ∷ []) s) (happen e s)
  happen-Kept (creates h answer) s held = created-Kept h answer s held
  happen-Kept (begins p) s held = begun-Kept p s held

  Kept-cons :
      (e : ThreadEvent O F) (es : List (ThreadEvent O F)) (s t : Process O F)
      (o : Option (Process O F))
      → Kept (e ∷ []) s (some t)
      → Kept es t o
      → Kept (e ∷ es) s o
  Kept-cons (creates h answer) es s t none k l = ground arith
  Kept-cons (begins p) es s t none k l = l
  Kept-cons (creates h answer) es s t (some u) k l =
      (ground (arith, k.0, l.0), l.1, λ test. omega (arith, k.2 test, l.2 test))
  Kept-cons (begins p) es s t (some u) k l = (l.0, l.1, λ test. omega (arith, k.2 test, l.2 test))

  Kept-failed :
      (e : ThreadEvent O F) (es : List (ThreadEvent O F)) (s : Process O F)
      → Kept (e ∷ []) s none
      → Kept (e ∷ es) s none
  Kept-failed (creates h answer) es s k = ground arith
  Kept-failed (begins p) es s k = cc

  then-Kept :
      (e : ThreadEvent O F) (es : List (ThreadEvent O F)) (s : Process O F)
      (o : Option (Process O F))
      → ((t : Process O F) → Held t → Returns (Kept es t) (happen_all es t))
      → Kept (e ∷ []) s o
      → Returns (Kept (e ∷ es) s) (elim o [ none ↦ ok none | some t ↦ happen_all es t ])
  then-Kept e es s none later k = Kept-failed e es s k
  then-Kept e es s (some t) later k =
      Returns-map (Kept (e ∷ es) s) (Kept es t) (happen_all es t) (later t k.1)
        (λ o l. Kept-cons e es s t o k l)

  happen_all-Kept :
      (es : List (ThreadEvent O F)) (s : Process O F)
      → Held s
      → Returns (Kept es s) (happen_all es s)
  unfolding happen_all
  happen_all-Kept [] s held = (refl, held, λ test. omega arith)
  happen_all-Kept (e ∷ es) s held =
      Returns->>= (Kept (e ∷ es) s) (Kept (e ∷ []) s) (happen e s) _ (happen-Kept e s held)
        (λ o k. then-Kept e es s o (happen_all-Kept es) k)

  -- None after a failure of `pthread_create`; else nothing is alive but the helpers of threads that have not begun, and every method that was asked for is
  -- called or waits in one of these.
  abbrev pub Balanced : List (ThreadEvent O F) → Option (Process O F) → Type 0
  Balanced es none = fails es ≡ true
  Balanced es (some s) =
      (fails es ≡ false)
      × (s.starting ≡ pointers s.helpers)
      × ((test : ThreadHelper O F → Bool)
          → count test s.calls + count_live test s.helpers ≡ count test (asked es))

  -- In any order in which threads for methods are created and begin to run, no helper object is
  -- used after it was deleted; either `pthread_create` has failed and the process has exited, or
  -- the helpers that are alive are those of the threads that have not begun, and every method that
  -- a thread was asked for was called, or is held by one of these helpers, as often as it was asked
  -- for.
  pub happen_all-Balanced :
      (es : List (ThreadEvent O F)) → Returns (Balanced es) (happen_all es empty_process)
  happen_all-Balanced es =
      Returns-map (Balanced es) (Kept es empty_process) (happen_all es empty_process)
        (happen_all-Kept es empty_process refl)
        (λ o k.
          elim o as (λ o. Kept es empty_process o → Balanced es o) [
            | none ↦ λ k. k
            | some s ↦ λ k. (k.0, k.1, λ test. omega (arith, k.2 test))
          ]
            k)
