-- ===== src/BaseNode/Timing/Verdict.antt =====
-- What one timer callback makes of its loop's flag and of the timing diagnostic.
use robot_framework_ros.Prelude.{
  ◌≡◌, refl, ◌∙◌, Bool, true, false, not, List, [], ◌∷◌, ◌++◌, arith, if◌then◌else◌, Bool-cases,
  inl, inr,
}
use robot_framework_ros.Prelude.Run.{ok, >>=-ok}
use robot_framework_ros.Prelude.Text.{Text}
use robot_framework_ros.Platform.{Doubles, CoreLib}
use robot_framework_ros.BaseNode.Object.{
  LoopsOk, Shared, Reads, Now, Node, Hook, Derived, call, call-ok, reads, Output,
}
use robot_framework_ros.BaseNode.Timing.{
  Tick, tick100hz, tick10hz, tick1hz, tick01hz, tick001hz, tick_loop1, tick_loop2, tick_loop3,
  slow_down_rate, is_slow, slow_diagnostic, note_timing, all_loops, run_timed,
}

abbrev pub Completes : {D P U : Type 0} → Hook D P U (Unit {0}) → Type 0
Completes {D} {P} {U} hook =
    (r : Reads D) (s : Shared P × U) → (s' : Shared P × U) × (hook r s ≡ ok (tt, s'))

-- The eight loops of the derived class neither throw nor fault.
pub record AllComplete {D P U : Type 0} (user : Derived D P U) : Type 0 where
  pub at100hz : Completes user.run100hz
  pub at10hz : Completes user.run10hz
  pub at1hz : Completes user.run1hz
  pub at01hz : Completes user.run01hz
  pub at001hz : Completes user.run001hz
  pub at_loop1 : Completes user.run_loop1
  pub at_loop2 : Completes user.run_loop2
  pub at_loop3 : Completes user.run_loop3

-- The last verdict on each loop, by the ticks alone: a loop is in time if its last run was.
module _ {D : Type 0} ⦃fl : Doubles D⦄ where
  -- A run is in time unless the time it took, divided by the loop's period 1 / rate, is more than 1.
  abbrev pub in_time : D → D → Bool
  in_time rate elapsed = not (fl.lt (fl.lit 1 0) (fl.div elapsed (fl.div (fl.lit 1 0) rate)))

  abbrev pub judge : D → D → D → Tick D → LoopsOk → LoopsOk
  judge r1 r2 r3 (tick100hz t) l = record l { loop100hz = in_time (fl.lit 100 0) t }
  judge r1 r2 r3 (tick10hz t) l = record l { loop10hz = in_time (fl.lit 10 0) t }
  judge r1 r2 r3 (tick1hz t) l = record l { loop1hz = in_time (fl.lit 1 0) t }
  judge r1 r2 r3 (tick01hz t) l = record l { loop01hz = in_time (fl.lit 1 1) t }
  judge r1 r2 r3 (tick001hz t) l = record l { loop001hz = in_time (fl.lit 1 2) t }
  judge r1 r2 r3 (tick_loop1 t) l = record l { loop1 = in_time r1 t }
  judge r1 r2 r3 (tick_loop2 t) l = record l { loop2 = in_time r2 t }
  judge r1 r2 r3 (tick_loop3 t) l = record l { loop3 = in_time r3 t }

  abbrev pub judge_all : D → D → D → List (Now D × Tick D) → LoopsOk → LoopsOk
  judge_all r1 r2 r3 [] l = l
  judge_all r1 r2 r3 ((now, t) ∷ rest) l = judge_all r1 r2 r3 rest (judge r1 r2 r3 t l)

abbrev all_true : List Bool → Bool
all_true [] = true
all_true (b ∷ bs) = if b then all_true bs else false

-- Each of the eight loops is in time.
abbrev pub every_loop : LoopsOk → Bool
every_loop l = all_true (
    l.loop3 ∷ l.loop2 ∷ l.loop1 ∷ l.loop001hz ∷ l.loop01hz ∷ l.loop1hz ∷ l.loop10hz ∷ l.loop100hz
    ∷ [])

pub every_loop_lem : (l : LoopsOk) → all_loops l ≡ every_loop l
every_loop_lem l = ground arith

module _ {D P U : Type 0} ⦃core : CoreLib⦄ where
  -- While a loop is slow, the timing diagnostic says so.
  abbrev pub IsWarned : Node D P U → Type 0
  IsWarned n =
      all_loops n.loops ≡ false
      → (n.timing_diagnostic.level ≡ core.level_warn)
        × (n.timing_diagnostic.diagnostic_message ≡ core.message_diagnostic_failed)

  -- What a callback keeps: the publishers, the rates, and the warning; the flags are `l`.
  pub record Kept (n m : Node D P U) (l : LoopsOk) : Type 0 where
    pub publishers : m.has_publishers ≡ true
    pub warned : IsWarned m
    pub loops : m.loops ≡ l
    pub rate1 : m.loop1_rate ≡ n.loop1_rate
    pub rate2 : m.loop2_rate ≡ n.loop2_rate
    pub rate3 : m.loop3_rate ≡ n.loop3_rate

module _ {D P U : Type 0} ⦃fl : Doubles D⦄ ⦃core : CoreLib⦄ where
  note_timing_lem :
      (name : Text) (rate elapsed : D) (set_ok : Bool → LoopsOk → LoopsOk) (n : Node D P U)
      → ((l : LoopsOk) → all_loops l ≡ true → all_loops (set_ok true l) ≡ true)
      → n.has_publishers ≡ true
      → IsWarned n
      → (m : Node D P U) × (note_timing name rate elapsed set_ok n ≡ ok (tt, m))
        × Kept n m (set_ok (in_time rate elapsed) n.loops)
  unfolding note_timing slow_diagnostic is_slow slow_down_rate
  note_timing_lem name rate elapsed set_ok n keeps pubs warned =
      elim (Bool-cases (is_slow rate elapsed)) [
        | inl slow ↦ (
          record n {
            loops = set_ok false n.loops;
            timing_diagnostic = slow_diagnostic name rate elapsed n.timing_diagnostic;
            outputs =
                n.outputs
                ++ Output.diagnostic_log (slow_diagnostic name rate elapsed n.timing_diagnostic)
                  ∷ [];
          },
          rw slow refl,
          record {
            publishers = pubs;
            warned = λ _. (refl, refl);
            loops = rw slow refl;
            rate1 = refl;
            rate2 = refl;
            rate3 = refl;
          },
        )
        | inr fast ↦ (
          record n { loops = set_ok true n.loops },
          rw fast refl,
          record {
            publishers = pubs;
            warned = λ e. warned (ground (arith, keeps n.loops));
            loops = rw fast refl;
            rate1 = refl;
            rate2 = refl;
            rate3 = refl;
          },
        )
      ]

  pub run_timed_lem :
      (name : Text) (rate elapsed : D) (set_ok : Bool → LoopsOk → LoopsOk)
      → (hook : Hook D P U (Unit {0})) (now : Now D) (n : Node D P U) → Completes hook
      → ((l : LoopsOk) → all_loops l ≡ true → all_loops (set_ok true l) ≡ true)
      → n.has_publishers ≡ true
      → IsWarned n
      → (m : Node D P U) × (run_timed name rate elapsed set_ok hook now n ≡ ok (tt, m))
        × Kept n m (set_ok (in_time rate elapsed) n.loops)
  run_timed_lem name rate elapsed set_ok hook now n done keeps pubs warned =
      let ((s, u), e) = done (reads now n) (n.shared, n.user) in
      let n1 : Node D P U = record n { shared = s; user = u } in
      let (m, f, k) = note_timing_lem name rate elapsed set_ok n1 keeps pubs warned in
      (
        m,
        >>=-ok (call hook now) (λ _. note_timing name rate elapsed set_ok) n (call-ok hook now n e)
            ∙ f,
        record {
          publishers = k.publishers;
          warned = k.warned;
          loops = k.loops;
          rate1 = k.rate1;
          rate2 = k.rate2;
          rate3 = k.rate3;
        },
      )
