-- ===== src/Run.antt =====
-- What a call into the C code comes to. `W` is the state of the MPI library and of the process.
-- `aborted` is a failed VAPAA_Assert (source/debug.h, source/debug.c: it ends in PMPI_Abort) or a
-- direct MPI_Abort; `fault` is a read outside an array. Messages to stderr are left out.
use vapaa.Prelude.{◌≡◌, refl, Bool, true, false, if◌then◌else◌}

pub data Run (W A : Type 0) : Type 0 where
  done : A → W → Run W A
  aborted : Run W A
  fault : Run W A

-- What follows a call that returns.
abbrev pub and_then : {W A B : Type 0} → Run W A → (A → W → Run W B) → Run W B
and_then (done a w) f = f a w
and_then aborted f = aborted
and_then fault f = fault

infixl 5 ◌>>=◌ ◌>>◌
abbrev pub ◌>>=◌ : {W A B : Type 0} → (W → Run W A) → (A → W → Run W B) → W → Run W B
◌>>=◌ m f w = and_then (m w) f

abbrev pub ◌>>◌ : {W B : Type 0} → (W → Run W (Unit {0})) → (W → Run W B) → W → Run W B
m >> k = m >>= λ _. k

abbrev pub pure : {W A : Type 0} → A → W → Run W A
pure a w = done a w

abbrev pub abort : {W A : Type 0} → W → Run W A
abort w = aborted

-- `VAPAA_Assert`, in a build without NO_SEATBELTS.
abbrev pub vapaa_assert : {W : Type 0} → Bool → W → Run W (Unit {0})
vapaa_assert true w = done tt w
vapaa_assert false w = aborted

-- The call returns, neither aborting nor faulting, with a value and a state that P holds of.
abbrev pub Returns : {W A : Type 0} → (A → W → Type 0) → Run W A → Type 0
Returns P (done a w) = P a w
Returns P aborted = ⊥
Returns P fault = ⊥

-- A first step that is known to return.
pub bind_done :
    {W A B : Type 0} (m : W → Run W A) (f : A → W → Run W B) {w w' : W} {a : A}
    → m w ≡ done a w'
    → (m >>= f) w ≡ f a w'
bind_done m f e = rw (e, ◌>>=◌)

pub bind-Returns :
    {W A B : Type 0} (P : B → W → Type 0) (m : W → Run W A) (f : A → W → Run W B) {w w' : W} {a : A}
    → m w ≡ done a w'
    → Returns P (f a w')
    → Returns P ((m >>= f) w)
bind-Returns P m f e h = rw (bind_done m f e) h

-- What follows a step that returns, and what holds then.
pub Returns-bind :
    {W A B : Type 0} (P : A → W → Type 0) (Q : B → W → Type 0) (m : W → Run W A)
    (f : A → W → Run W B) (w : W)
    → Returns P (m w)
    → ((a : A) (w' : W) → P a w' → Returns Q (f a w'))
    → Returns Q ((m >>= f) w)
Returns-bind {W} {A} {B} P Q m f w h k = go (m w) refl h
  where
    go : (r : Run W A) → m w ≡ r → Returns P r → Returns Q ((m >>= f) w)
    go (done a w') e p = bind-Returns Q m f e (k a w' p)
    go aborted e p = elim p [ ]
    go fault e p = elim p [ ]

pub Returns-weaken :
    {W A : Type 0} (P Q : A → W → Type 0) (r : Run W A)
    → Returns P r
    → ((a : A) (w : W) → P a w → Q a w)
    → Returns Q r
Returns-weaken P Q (done a w) h k = k a w h
Returns-weaken P Q aborted h k = h
Returns-weaken P Q fault h k = h

-- A step that is made or refused, and what follows.
pub refused_or :
    {W A B : Type 0} (b : Bool) (m : W → Run W A) (f : A → W → Run W B) (w : W)
    → ((if b then m else abort) >>= f) w ≡ (if b then (m >>= f) w else aborted)
refused_or true m f w = refl
refused_or false m f w = refl

-- A call that is known to return, and what holds of what it returned.
pub Returns-done :
    {W A : Type 0} (P : A → W → Type 0) (r : Run W A) {a : A} {w : W}
    → Returns P r
    → r ≡ done a w
    → P a w
Returns-done P r h e = rw e at h

-- Two things that are known of a call.
pub Returns-both :
    {W A : Type 0} (P Q : A → W → Type 0) (r : Run W A)
    → Returns P r
    → Returns Q r
    → Returns (λ a w. P a w × Q a w) r
Returns-both P Q (done a w) h k = (h, k)
Returns-both P Q aborted h k = h
Returns-both P Q fault h k = h

-- If the call returns, P holds of the state it returns in.
pub data Leaves {W A : Type 0} (P : W → Type 0) : Run W A → Type 0 where
  returned : {a : A} {w : W} → P w → Leaves P (done a w)
  no_return : Leaves P aborted
  no_read : Leaves P fault

pub Leaves-bind :
    {W A B : Type 0} {P : W → Type 0} {r : Run W A} {f : A → W → Run W B}
    → Leaves P r
    → ((a : A) (w : W) → P w → Leaves P (f a w))
    → Leaves P (and_then r f)
Leaves-bind (returned {a} {w} h) k = k a w h
Leaves-bind no_return k = no_return
Leaves-bind no_read k = no_read

pub Leaves-if :
    {W A : Type 0} {P : W → Type 0} (b : Bool) {x y : Run W A}
    → Leaves P x
    → Leaves P y
    → Leaves P (if b then x else y)
Leaves-if true h k = h
Leaves-if false h k = k

pub Leaves-if_block :
    {W A : Type 0} {P : W → Type 0} (b : Bool) (x y : W → Run W A) (w : W)
    → Leaves P (x w)
    → Leaves P (y w)
    → Leaves P ((if b then x else y) w)
Leaves-if_block true x y w h k = h
Leaves-if_block false x y w h k = k

pub Leaves-assert :
    {W : Type 0} {P : W → Type 0} (b : Bool) (w : W) → P w → Leaves P (vapaa_assert b w)
Leaves-assert true w h = returned h
Leaves-assert false w h = no_return

pub Leaves-done : {W A : Type 0} {P : W → Type 0} {a : A} {w : W} → Leaves P (done a w) → P w
Leaves-done (returned h) = h

-- What is known of a call that returns, together with what it leaves.
pub Returns-Leaves :
    {W A : Type 0} (Q : A → W → Type 0) (P : W → Type 0) (r : Run W A)
    → Returns Q r
    → Leaves P r
    → Returns (λ a w. Q a w × P w) r
Returns-Leaves Q P (done a w) h p = (h, Leaves-done p)
Returns-Leaves Q P aborted h p = h
Returns-Leaves Q P fault h p = h

pub ruleset leaves =
    (Leaves-bind, Leaves-if, Leaves-if_block, Leaves-assert, returned, no_return, no_read)
