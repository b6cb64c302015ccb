-- ===== src/Base/Calls.antt =====
-- Calls that change a world and may fail, made one after the other.
use mathlib.Core.Path.{◌≡◌, refl}
use mathlib.Core.Bool.{Bool, true, ◌&&◌}
use mathlib.Core.List.{List, [], ◌∷◌, ◌++◌}
use native.Mathlib.Omega.{arith}

module _ {W : Type 0} where
  -- All the calls, whether they succeed or not; and whether all did.
  abbrev pub make_calls : List (W → W × Bool) → W → W × Bool
  make_calls [] w = (w, true)
  make_calls (call ∷ rest) w =
      let (after, done) = call w in
      let (last, all_done) = make_calls rest after in (last, done && all_done)

  pub make_calls-append :
      (calls more : List (W → W × Bool)) (w : W)
      → make_calls (calls ++ more) w ≡ (
        (make_calls more (make_calls calls w).0).0,
        (make_calls calls w).1 && (make_calls more (make_calls calls w).0).1,
      )
  make_calls-append [] more w = refl
  make_calls-append (call ∷ calls) more w = ground (arith, make_calls-append calls more (call w).0)
