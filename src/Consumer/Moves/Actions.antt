-- ===== src/Consumer/Moves/Actions.antt =====
-- Actions of a socket that only make moves, put together as the code puts its calls together.
use stapel_realtime.Prelude.{◌≡◌, refl, Bool, true, false, if◌then◌else◌}
use stapel_realtime.Python.{ok, raise, Result}
use stapel_realtime.Consumer.State.{Socket, Action, continue, lift, gets, modify, ◌>>=◌}
use stapel_realtime.Consumer.Moves.{Mode, Moves, here, Moves-trans}

-- An action that only makes moves, whether it returns or raises.
pub record Runs (mode : Mode) {A : Type 0} (m : Action A) : Type 0 where
  pub at : (s : Socket) → Moves mode s (m s).1

module _ {A B : Type 0} where
  continue-Moves :
      {mode : Mode} (s t : Socket) (r : Result A) (f : A → Action B)
      → Moves mode s t
      → ((a : A) → Runs mode (f a))
      → Moves mode s (continue (r, t) f).1
  continue-Moves s t (ok a) f p run = Moves-trans p ((run a).at t)
  continue-Moves s t (raise e) f p run = p

  pub Runs-bind :
      {mode : Mode} (m : Action A) (f : A → Action B)
      → Runs mode m
      → ((a : A) → Runs mode (f a))
      → Runs mode (m >>= f)
  unfolding ◌>>=◌
  Runs-bind m f rm rf = record { at = λ s. let (r, t) = m s in continue-Moves s t r f (rm.at s) rf }

module _ {A : Type 0} where
  pub Runs-lift : {mode : Mode} (r : Result A) → Runs mode (lift r)
  Runs-lift r = record { at = λ s. here }

  pub Runs-gets : {mode : Mode} (f : Socket → A) → Runs mode (gets f)
  Runs-gets f = record { at = λ s. here }

pub Runs-modify :
    {mode : Mode} (f : Socket → Socket) → ((s : Socket) → Moves mode s (f s)) → Runs mode (modify f)
Runs-modify f h = record { at = h }

-- Branching, with what the test says.
module _ {A : Type 0} (s : Socket) where
  pub Moves-if :
      {mode : Mode} (b : Bool) (x y : Result A × Socket)
      → (b ≡ true → Moves mode s x.1)
      → (b ≡ false → Moves mode s y.1)
      → Moves mode s (if b then x else y).1
  Moves-if true x y h k = h refl
  Moves-if false x y h k = k refl

pub Moves-if_state :
    {mode : Mode} (s : Socket) (b : Bool) (t u : Socket)
    → (b ≡ true → Moves mode s t)
    → (b ≡ false → Moves mode s u)
    → Moves mode s (if b then t else u)
Moves-if_state s true t u h k = h refl
Moves-if_state s false t u h k = k refl

pub Runs-if :
    {mode : Mode} {A : Type 0} (b : Bool) (m n : Action A)
    → Runs mode m
    → Runs mode n
    → Runs mode (if b then m else n)
Runs-if true m n h k = h
Runs-if false m n h k = k
