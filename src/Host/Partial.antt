-- ===== src/Host/Partial.antt =====
-- Partial correctness of the commands of Host: what holds if a run ends, and invariants that a
-- command keeps.
use esp_hostdriver.Prelude.{ℕ, List, [], ◌∷◌, Bool, true, false, Option, none, some, if◌then◌else◌}
use esp_hostdriver.Host.Ret.{Ret, ret, fail}
use esp_hostdriver.Host.{
  SockType, stream, dgram, World, Run, done, fault, blocked, Cmd, and_then, pure, ◌>>=◌, ◌>>◌,
  expect,
}

-- If the run ends, its result and final state satisfy the postcondition.
pub data IfDone {A : Type 0} (P : A → World → Type 0) : Run A → Type 0 where
  if_done : {a : A} {w : World} → P a w → IfDone P (done a w)
  if_fault : IfDone P fault
  if_blocked : IfDone P blocked

module _ {A B : Type 0} {P : A → World → Type 0} {Q : B → World → Type 0} where
  pub IfDone-and_then :
      {r : Run A} {f : A → Cmd B}
      → IfDone P r
      → ((a : A) (w : World) → P a w → IfDone Q (f a w))
      → IfDone Q (and_then r f)
  IfDone-and_then (if_done p) next = next _ _ p
  IfDone-and_then if_fault next = if_fault
  IfDone-and_then if_blocked next = if_blocked

pub IfDone-mono :
    {A : Type 0} {P Q : A → World → Type 0} {r : Run A}
    → IfDone P r
    → ((a : A) (w : World) → P a w → Q a w)
    → IfDone Q r
IfDone-mono (if_done p) weaken = if_done (weaken _ _ p)
IfDone-mono if_fault weaken = if_fault
IfDone-mono if_blocked weaken = if_blocked

pub anything : {A : Type 0} (r : Run A) → IfDone (λ a w. Unit {0}) r
anything (done a w) = if_done tt
anything fault = if_fault
anything blocked = if_blocked

-- From a state that satisfies the invariant the command ends, if it ends, in one that does.
pub record Keeps {A : Type 0} (I : World → Type 0) (m : Cmd A) : Type 0 where
  pub keeps : (w : World) → I w → IfDone (λ _ v. I v) (m w)

module _ {A : Type 0} {I : World → Type 0} where
  pub Keeps-pure : (a : A) → Keeps I (pure a)
  Keeps-pure a = record { keeps = λ w h. if_done h }

  pub Keeps-fault : Keeps {A = A} I (λ _. fault)
  Keeps-fault = record { keeps = λ w h. if_fault }

  pub Keeps-blocked : Keeps {A = A} I (λ _. blocked)
  Keeps-blocked = record { keeps = λ w h. if_blocked }

  pub Keeps-expect : (o : Option A) → Keeps I (expect o)
  Keeps-expect none = record { keeps = λ w h. if_fault }
  Keeps-expect (some a) = record { keeps = λ w h. if_done h }

  pub Keeps-if : (b : Bool) {m k : Cmd A} → Keeps I m → Keeps I k → Keeps I (if b then m else k)
  Keeps-if true hm hk = hm
  Keeps-if false hm hk = hk

module _ {A B : Type 0} {I : World → Type 0} where
  pub Keeps-bind :
      {m : Cmd A} {f : A → Cmd B} → Keeps I m → ((a : A) → Keeps I (f a)) → Keeps I (m >>= f)
  Keeps-bind hm hf = record {
    keeps = λ w h. IfDone-and_then (hm.keeps w h) (λ a v i. (hf a).keeps v i);
  }

  pub Keeps-then : {m : Cmd A} {k : Cmd B} → Keeps I m → Keeps I k → Keeps I (m >> k)
  Keeps-then hm hk = Keeps-bind hm (λ _. hk)

module _ {A B C : Type 0} where
  IfDone-regroup :
      {P : C → World → Type 0} (r : Run A) (f : A → Cmd B) (g : B → Cmd C)
      → IfDone P (and_then (and_then r f) g)
      → IfDone P (and_then r (λ a w. and_then (f a w) g))
  IfDone-regroup (done a w) f g h = h
  IfDone-regroup fault f g h = if_fault
  IfDone-regroup blocked f g h = if_blocked

  pub Keeps-regroup :
      {I : World → Type 0} (m : Cmd A) (f : A → Cmd B) (g : B → Cmd C)
      → Keeps I (m >>= f >>= g)
      → Keeps I (m >>= λ a. f a >>= g)
  Keeps-regroup m f g h = record { keeps = λ w i. IfDone-regroup (m w) f g (h.keeps w i) }

module _ {A B : Type 0} {I : World → Type 0} where
  -- The cases of an option, as the commands take them.
  pub Keeps-option :
      (o : Option A) {m : Cmd B} {f : A → Cmd B}
      → Keeps I m
      → ((a : A) → Keeps I (f a))
      → Keeps I (elim o [ none ↦ m | some a ↦ f a ])
  Keeps-option none hm hf = hm
  Keeps-option (some a) hm hf = hf a

  pub Keeps-list :
      (l : List A) {m : Cmd B} {f : A → List A → Cmd B}
      → Keeps I m
      → ((a : A) (as' : List A) → Keeps I (f a as'))
      → Keeps I (elim l [ [] ↦ m | a ∷ as' ↦ f a as' ])
  Keeps-list [] hm hf = hm
  Keeps-list (a ∷ as') hm hf = hf a as'

module _ {B : Type 0} {I : World → Type 0} where
  pub Keeps-ty :
      (t : SockType) {m k : Cmd B}
      → Keeps I m
      → Keeps I k
      → Keeps I (elim t [ stream ↦ m | dgram ↦ k ])
  Keeps-ty stream hm hk = hm
  Keeps-ty dgram hm hk = hk

  pub Keeps-ret :
      (r : Ret) {m : Cmd B} {f : ℕ → Cmd B}
      → Keeps I m
      → ((n : ℕ) → Keeps I (f n))
      → Keeps I (elim r [ ret n ↦ f n | fail ↦ m ])
  Keeps-ret (ret n) hm hf = hf n
  Keeps-ret fail hm hf = hm
