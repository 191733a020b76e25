-- ===== src/Timer.antt =====
-- ClientTimer.cpp: the statistics of elapsed times. The durations of <chrono> are a type with its
-- operations, and what the clock shows is an argument. `PrintStats` only prints.
use two_phase_commit_protoco.Base.{◌+◌, ◌%◌, ◌^◌, ◌≡◌, refl, Bool, true, if◌then◌else◌}
use two_phase_commit_protoco.Base.Int.{ℤ, pos, inc, to_word, of_word}

-- `class ClientTimer`; a point in time is a duration too, from when the clock was started.
pub record ClientTimer (D : Type 0) : Type 0 where
  pub sum : D
  pub max : D
  pub min : D
  pub op_count : ℤ
  pub start_time : D
  pub elapsed_time : D

-- `op_count += n` on `int`.
abbrev pub add_count : ℤ → ℤ → ℤ
add_count a n = of_word ((to_word a + to_word n) % 2 ^ 32)

-- `largest` is 9999999999.9; `less a b` is `a < b`; `between a b` is `b - a`.
module _ {D : Type 0} (zero_time largest : D) (add : D → D → D) (less : D → D → Bool)
    (between : D → D → D) where
  -- `ClientTimer()` leaves the two times as they are.
  abbrev pub new_timer : D → D → ClientTimer D
  new_timer stray_start stray_elapsed = record {
    sum = zero_time;
    max = zero_time;
    min = largest;
    op_count = pos 0;
    start_time = stray_start;
    elapsed_time = stray_elapsed;
  }

  unfoldable pub start : D → ClientTimer D → ClientTimer D
  start now timer = record timer { start_time = now }

  unfoldable pub end_time : D → ClientTimer D → ClientTimer D
  end_time now timer = record timer { elapsed_time = between timer.start_time now }

  unfoldable pub end_and_merge : D → ClientTimer D → ClientTimer D
  unfolding end_time
  end_and_merge now timer =
      let t = end_time now timer in
      record t {
        op_count = inc t.op_count;
        sum = add t.sum t.elapsed_time;
        min = if less t.elapsed_time t.min then t.elapsed_time else t.min;
        max = if less t.max t.elapsed_time then t.elapsed_time else t.max;
      }

  unfoldable pub merge : ClientTimer D → ClientTimer D → ClientTimer D
  merge timer other = record timer {
    sum = add timer.sum other.sum;
    op_count = add_count timer.op_count other.op_count;
    min = if less other.min timer.min then other.min else timer.min;
    max = if less timer.max other.max then other.max else timer.max;
  }

  -- What is printed of a timer, the last elapsed time aside.
  abbrev pub statistics : ClientTimer D → D × D × D × ℤ
  statistics t = (t.sum, t.max, t.min, t.op_count)

  -- A measurement that is more than nothing and less than `largest`: to take it with a timer does
  -- the same for its statistics as to take it with a new timer, started at the same time, and to
  -- merge that one.
  pub end_and_merge-merge :
      (timer : ClientTimer D) (now stray : D)
      → add zero_time (between timer.start_time now) ≡ between timer.start_time now
      → less zero_time (between timer.start_time now) ≡ true
      → less (between timer.start_time now) largest ≡ true
      → statistics (end_and_merge now timer)
        ≡ statistics
            (merge timer (end_and_merge now (start timer.start_time (new_timer stray stray))))
  unfolding start end_time end_and_merge merge
  end_and_merge-merge timer now stray e low high = rw (e, low, high) (unfold inc in refl)
