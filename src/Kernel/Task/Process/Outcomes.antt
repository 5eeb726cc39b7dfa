-- ===== src/Kernel/Task/Process/Outcomes.antt =====
-- What holds of every result of a step that may give none: the rules for createProcess.
use sea_star_os.Base.{◌≡◌, refl, Bool, true, false, Option, none, some, if◌then◌else◌, and_then}

-- `P` holds of the result, where there is one.
pub Always : {A : Type 0} → (A → Type 0) → Option A → Type 0
Always P none = Unit {0}
Always P (some x) = P x

module _ {B : Type 0} (P : B → Type 0) where
  pub Always-none : Always P none
  unfolding Always
  Always-none = tt

  pub Always-some : (x : B) → P x → Always P (some x)
  unfolding Always
  Always-some x h = h

  pub Always-found : (o : Option B) (x : B) → o ≡ some x → Always P o → P x
  unfolding Always
  Always-found o x e h = rw e at h

  pub Always-if :
      (c : Bool) (a b : Option B)
      → (c ≡ true → Always P a)
      → (c ≡ false → Always P b)
      → Always P (if c then a else b)
  Always-if true a b h k = h refl
  Always-if false a b h k = k refl

  pub Always-step :
      {A : Type 0} (o : Option A) (f : A → Option B)
      → ((x : A) → Always P (f x))
      → Always P (and_then o f)
  unfolding Always
  Always-step none f k = tt
  Always-step (some x) f k = k x

  pub Always-and_then :
      {A : Type 0} (Q : A → Type 0) (o : Option A) (f : A → Option B)
      → Always Q o
      → ((x : A) → Q x → Always P (f x))
      → Always P (and_then o f)
  unfolding Always
  Always-and_then Q none f h k = tt
  Always-and_then Q (some x) f h k = k x h

  pub Always-weaken :
      (Q : B → Type 0) (o : Option B) → ((x : B) → Q x → P x) → Always Q o → Always P o
  unfolding Always
  Always-weaken Q none h k = tt
  Always-weaken Q (some x) h k = h x k
