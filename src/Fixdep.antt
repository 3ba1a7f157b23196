-- ===== src/Fixdep.antt =====
-- scripts/build/fixdep: the tool of the build that turns the dependencies which gcc found into those
-- that make needs. Its state, the ends of a call and the files of the operating system.
pub mod Hashtbl
pub mod Prereq
pub mod Files
pub mod Depfile
mod Tests
use esp_hostdriver.Prelude.{
  ℕ, suc, ◌+◌, ◌-◌, ◌≡◌, Bool, true, false, List, [], ◌∷◌, ◌++◌, Option, none, some, ◌==◌,
  if◌then◌else◌,
}

-- `struct item` of hashtbl.h, without the link: a bucket is the list of its items.
pub record Item : Type 0 where
  pub len : ℕ
  pub hash : ℕ
  pub name : List ℕ

-- What a call changes: the table `hashtab`, how many more calls of `malloc` succeed, what was written
-- to stdout, the descriptors that are open, and the number of mappings.
pub record Tool : Type 0 where
  pub hashtab : ℕ → List Item
  pub budget : ℕ
  pub out : List ℕ
  pub files : List ℕ
  pub maps : ℕ

-- How a call ends: it returns, it calls `exit`, or it leaves the memory that is mapped.
pub data Run (A : Type 0) : Type 0 where
  done : A → Tool → Run A
  exited : ℕ → Tool → Run A
  fault : Run A

abbrev pub Cmd : Type 0 → Type 0
Cmd A = Tool → Run A

abbrev pub pure : {A : Type 0} → A → Cmd A
pure = done

abbrev pub and_then : {A B : Type 0} → Run A → (A → Cmd B) → Run B
and_then (done a t) f = f a t
and_then (exited code t) f = exited code t
and_then fault f = fault

infixl 5 ◌>>=◌ ◌>>◌
abbrev pub ◌>>=◌ : {A B : Type 0} → Cmd A → (A → Cmd B) → Cmd B
m >>= f = λ t. and_then (m t) f

abbrev pub ◌>>◌ : {A B : Type 0} → Cmd A → Cmd B → Cmd B
m >> k = m >>= λ _. k

-- `printf` of a text
abbrev pub print : List ℕ → Cmd Unit
print s t = done tt (record t { out = t.out ++ s })
