-- ===== src/LoopThread/Races.antt =====
-- What the stopping of a loop's thread guarantees, src/net/service_loop_thread.cc, and what it does not.
use libolptnet.Base.{ℕ, zero, suc, ◌+◌, ◌≡◌, refl, ap, ◌∙◌, ◌≢◌, ◌⊎◌, inl, inr, true, false, arith}
use libolptnet.LoopThread.Stopping.{
  setting, waking, writing, joined, Runner, looping, waiting, draining, delivering, leaving, ended,
  Pair, QuitStep, set_quit, read_wakeup, write_some, join, RunStep, go_on, stop, waited, woken,
  read_some, handled, delivered, called, drained, destroy, Reach, start, quits, runs, adds, Runs,
  none_left, one_more, touches,
}

-- The flag is set once the destructor is past it, the loop is left only then, and it is gone at the end of its
-- thread and not before; the destructor ends after that.
pub record IsOrdered (s : Pair) : Type 0 where
  pub flagged : s.quitter ≢ setting → s.quit ≡ true
  pub left_late : s.runner ≡ leaving → s.quit ≡ true
  pub gone_late : s.runner ≢ ended → s.alive ≡ true
  pub gone : s.runner ≡ ended → (s.alive ≡ false) × (s.quit ≡ true)
  pub after_end : s.quitter ≡ joined → s.runner ≡ ended

QuitStep-IsOrdered : {s t : Pair} → QuitStep s t → IsOrdered s → IsOrdered t
QuitStep-IsOrdered {s} (set_quit a e) v = rw e (ground arith)
QuitStep-IsOrdered {s} (read_wakeup a e) v = rw e (ground arith)
QuitStep-IsOrdered {s} (write_some a e) v = rw e (ground arith)
QuitStep-IsOrdered {s} (join a b e) v = rw e (ground arith)

RunStep-IsOrdered : {s t : Pair} → RunStep s t → IsOrdered s → IsOrdered t
RunStep-IsOrdered (go_on a b e) v = rw e (ground arith)
RunStep-IsOrdered (stop a b e) v = rw e (ground arith)
RunStep-IsOrdered (waited n a e) v = rw e (ground arith)
RunStep-IsOrdered (woken n a b e) v = rw e (ground arith)
RunStep-IsOrdered (read_some n a e) v = rw e (ground arith)
RunStep-IsOrdered (handled b n more a e) v = rw e (ground arith)
RunStep-IsOrdered (delivered a e) v = rw e (ground arith)
RunStep-IsOrdered (called n more a b e) v = rw e (ground arith)
RunStep-IsOrdered (drained a b e) v = rw e (ground arith)
RunStep-IsOrdered (destroy a e) v = rw e (ground arith)

Reach-IsOrdered : {s : Pair} → Reach s → IsOrdered s
Reach-IsOrdered start = ground arith
Reach-IsOrdered (quits r st) = QuitStep-IsOrdered st (Reach-IsOrdered r)
Reach-IsOrdered (runs r st) = RunStep-IsOrdered st (Reach-IsOrdered r)
Reach-IsOrdered (adds r a) = let v = Reach-IsOrdered r in ground arith

-- When the destructor is behind `join_thread`, the loop's thread has ended and the loop is
-- destroyed.
pub join_waits : {s : Pair} → Reach s → s.quitter ≡ joined → (s.runner ≡ ended) × (s.alive ≡ false)
join_waits r e = let v = Reach-IsOrdered r in (v.after_end e, (v.gone (v.after_end e)).0)

-- Steps of the loop's thread alone lead to its end.
abbrev Ends : Pair → Type 0
Ends s =
    (n : ℕ) × (t : Pair) × Runs n s t
    × (t.runner ≡ ended)
    × (t.alive ≡ false)
    × (t.quitter ≡ s.quitter)

RunStep-Ends : {s t : Pair} → RunStep s t → t.quitter ≡ s.quitter → Ends t → Ends s
RunStep-Ends st same (n, u, path, e, gone, q) = (suc n, u, one_more st path, e, gone, q ∙ same)

leaving-Ends : (s : Pair) → s.runner ≡ leaving → Ends s
leaving-Ends s e =
    RunStep-Ends (destroy e refl) refl
      (0, record s { runner = ended; alive = false }, none_left, refl, refl, refl)

looping-Ends : (s : Pair) → s.quit ≡ true → s.runner ≡ looping → Ends s
looping-Ends s q e =
    RunStep-Ends (stop e q refl) refl (leaving-Ends (record s { runner = leaving }) refl)

draining-Ends : (n : ℕ) (s : Pair) → s.quit ≡ true → s.runner ≡ draining → s.functors ≡ n → Ends s
draining-Ends zero s q e f =
    RunStep-Ends (drained e f refl) refl (looping-Ends (record s { runner = looping }) q refl)
draining-Ends (suc n) s q e f =
    RunStep-Ends (called n 0 e f refl) refl
      (draining-Ends n (record s { functors = n + 0 }) q e (omega arith))

delivering-Ends : (n : ℕ) (s : Pair) → s.quit ≡ true → s.runner ≡ delivering false n → Ends s
delivering-Ends zero s q e =
    RunStep-Ends (delivered e refl) refl
      (draining-Ends s.functors (record s { runner = draining }) q refl refl)
delivering-Ends (suc n) s q e =
    RunStep-Ends (handled false n 0 e refl) refl (
      delivering-Ends n (record s { runner = delivering false n; functors = s.functors + 0 }) q
        refl)

runner-Ends : {s : Pair} → Reach s → s.quit ≡ true → Ends s
runner-Ends {s} r q = ends s.runner refl
  where
    ends : (k : Runner) → s.runner ≡ k → Ends s
    ends looping e = looping-Ends s q e
    ends waiting e =
        RunStep-Ends (waited 0 e refl) refl
          (delivering-Ends 0 (record s { runner = delivering false 0 }) q refl)
    ends (delivering true n) e =
        RunStep-Ends (read_some n e refl) refl
          (delivering-Ends n (record s { runner = delivering false n; wakeups = 0 }) q refl)
    ends (delivering false n) e = delivering-Ends n s q e
    ends draining e = draining-Ends s.functors s q e refl
    ends leaving e = leaving-Ends s e
    ends ended e = (0, s, none_left, e, ((Reach-IsOrdered r).gone e).0, refl)

-- From every reached state in which the destructor of `ServiceLoopThread` has set `quit_` but
-- `quit` has not yet read `wakeup_` or not yet written to it, steps of the loop's thread alone, in
-- which every handler and functor that is called returns, lead to a state in which the loop is
-- destroyed and the destructor's next step reads or writes it.
pub quit_races :
    {s : Pair}
    → Reach s
    → (s.quitter ≡ waking) ⊎ (s.quitter ≡ writing)
    → (n : ℕ) × (t : Pair) × Runs n s t × (t.alive ≡ false) × (touches t.quitter ≡ true)
quit_races {s} r late =
    let (n, t, path, e, gone, same) = runner-Ends r (elim late [
      | inl k ↦ (Reach-IsOrdered r).flagged (λ m. cc)
      | inr k ↦ (Reach-IsOrdered r).flagged (λ m. cc)
    ]) in
    (n, t, path, gone, elim late [ inl k ↦ ap touches (same ∙ k) | inr k ↦ ap touches (same ∙ k) ])
