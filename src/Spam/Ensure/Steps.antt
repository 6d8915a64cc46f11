-- ===== src/Spam/Ensure/Steps.antt =====
-- Steps of the command that end without an error: what holds after them.
use thorchain_v.Base.{Bool, true, false, Option, none, some}
use thorchain_v.Spam.Ensure.{
  Tool, World, EnsureError, Ended, done, failed, panic, or_panic, fail_if, Step, continue, expect,
  ask,
}

module _ (T : Tool) where
  -- If the step is done, the state after it has the property.
  abbrev pub Leads : {A : Type 0} → (World T → Type 0) → Ended A × World T → Type 0
  Leads P (done a, w) = P w
  Leads P (failed e, w) = Unit
  Leads P (panic, w) = Unit

  pub continue-Leads :
      {A B : Type 0} (P Q : World T → Type 0) (f : A → Step T B) (r : Ended A × World T)
      → Leads Q r
      → ((a : A) (w : World T) → Q w → Leads P (f a w))
      → Leads P (continue T f r)
  continue-Leads P Q f (done a, w) h k = k a w h
  continue-Leads P Q f (failed e, w) h k = tt
  continue-Leads P Q f (panic, w) h k = tt

  pub expect-Leads :
      {A : Type 0} (P : World T → Type 0) (e : EnsureError) (o : Option A) (w : World T)
      → P w
      → Leads P (expect T e o, w)
  expect-Leads P e none w h = tt
  expect-Leads P e (some a) w h = h

  pub or_panic-Leads :
      {A : Type 0} (P : World T → Type 0) (o : Option A) (w : World T)
      → P w
      → Leads P (or_panic T o, w)
  or_panic-Leads P none w h = tt
  or_panic-Leads P (some a) w h = h

  pub fail_if-Leads :
      (P : World T → Type 0) (c : Bool) (e : EnsureError) (w : World T)
      → P w
      → Leads P (fail_if T c e w)
  fail_if-Leads P true e w h = tt
  fail_if-Leads P false e w h = h

  pub ask-Leads :
      {A : Type 0} (P : World T → Type 0) (e : EnsureError)
      (f : T.network.State → Option A × T.network.State) (w : World T)
      → ((s : T.network.State) → P (record w { node = s }))
      → Leads P (ask T e f w)
  ask-Leads P e f w h = let (r, s) = f w.node in expect-Leads P e r (record w { node = s }) (h s)

  pub Leads-imp :
      {A : Type 0} (P Q : World T → Type 0)
      → ((w : World T) → P w → Q w)
      → (r : Ended A × World T) → Leads P r
      → Leads Q r
  Leads-imp P Q f (done a, w) h = f w h
  Leads-imp P Q f (failed e, w) h = tt
  Leads-imp P Q f (panic, w) h = tt
