-- ===== src/Examples/Spins.antt =====
-- src/lc_thread.c: two threads at one spin lock.
use casting.Base.{◌≡◌, ◌≤◌, refl, [], ◌∷◌}
use casting.Spin.{State, outside, spinning, start, calls, Reachable, begin, after, holders}
use casting.Spin.Exclusion.{Reachable-excludes}

-- The first thread waits for the lock.
abbrev waiting : State
waiting = record (start 2) { places = spinning ∷ (outside ∷ []) }

waiting-Reachable : Reachable 2 waiting
waiting-Reachable = after begin (calls (start 2) 0 refl)

Reachable-excludes_example : (holders waiting.places ≡ waiting.s) × (waiting.s ≤ 1)
Reachable-excludes_example = Reachable-excludes 2 waiting-Reachable
