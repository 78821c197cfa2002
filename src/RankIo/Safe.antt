-- ===== src/RankIo/Safe.antt =====
-- A process removes no directory but the one it made, in its temporary directory, from outside.

use dmg_md.Base.{
  ℕ, ◌+◌, Bool, true, false, List, [], ◌∷◌, ◌++◌, Option, none, some, ◌≡◌, refl, ◌⊎◌, inl, inr,
  arith, subst, sym, ap, ◌∙◌,
}
use dmg_md.RunFile.{Bytes}
use dmg_md.RunFile.Text.{same_bytes-eq}
use dmg_md.RankIo.{
  FilePath, Process, Isolation, SystemCall, made, opened, entered, returned, removing, no_path,
  is_no_path,
}
use dmg_md.RankIo.Names.{
  same_path, same_parts, parent_path, file_name, name_matches, count_bytes, has_prefix, same_bool,
}

-- Whether the process stands in the scratch directory after the calls.
unfoldable pub inside : List SystemCall → Bool
inside [] = false
inside (entered p ∷ calls) = true
inside (returned p ∷ calls) = false
inside (made p ∷ calls) = inside calls
inside (opened p ∷ calls) = inside calls
inside (removing p ∷ calls) = inside calls

-- The directory that the process made last.
unfoldable pub last_made : List SystemCall → Option FilePath
last_made [] = none
last_made (made p ∷ calls) = some p
last_made (opened p ∷ calls) = last_made calls
last_made (entered p ∷ calls) = last_made calls
last_made (returned p ∷ calls) = last_made calls
last_made (removing p ∷ calls) = last_made calls

-- The prefix and six characters.
unfoldable pub IsScratchName : Bytes → Bytes → Type 0
IsScratchName prefix name = (suffix : Bytes) × (name ≡ prefix ++ suffix) × (count_bytes suffix ≡ 6)

-- The removal of a path after some calls: it is the directory made, it stands in the temporary
-- directory, it has the name of a scratch directory of the job, and the process is outside.
unfoldable pub IsSafeRemoval : FilePath → Bytes → FilePath → List SystemCall → Type 0
IsSafeRemoval root prefix p calls =
    (parent_path p ≡ root)
    × IsScratchName prefix (file_name p)
    × (last_made calls ≡ some p)
    × (inside calls ≡ false)

unfoldable pub AreSafe : FilePath → Bytes → List SystemCall → Type 0
AreSafe root prefix [] = Unit {0}
AreSafe root prefix (removing p ∷ calls) =
    IsSafeRemoval root prefix p calls × AreSafe root prefix calls
AreSafe root prefix (made p ∷ calls) = AreSafe root prefix calls
AreSafe root prefix (opened p ∷ calls) = AreSafe root prefix calls
AreSafe root prefix (entered p ∷ calls) = AreSafe root prefix calls
AreSafe root prefix (returned p ∷ calls) = AreSafe root prefix calls

same_parts-eq : (p q : List Bytes) → same_parts p q ≡ true → p ≡ q
unfolding same_parts
same_parts-eq [] [] h = refl
same_parts-eq [] (q ∷ qs) h = cc
same_parts-eq (p ∷ ps) [] h = cc
same_parts-eq (p ∷ ps) (q ∷ qs) h =
    let first : p ≡ q = same_bytes-eq p q (ground arith) in
    let rest : ps ≡ qs = same_parts-eq ps qs (ground arith) in cc

same_bool-eq : (a b : Bool) → same_bool a b ≡ true → a ≡ b
same_bool-eq a b h = ground arith

pub same_path-eq : (p q : FilePath) → same_path p q ≡ true → p ≡ q
unfolding same_path
same_path-eq p q h =
    let flag : p.absolute ≡ q.absolute = same_bool-eq p.absolute q.absolute (ground arith) in
    let rest : p.parts ≡ q.parts = same_parts-eq p.parts q.parts (ground arith) in cc

has_prefix-splits :
    (prefix name : Bytes) (n : ℕ)
    → has_prefix prefix name ≡ true
    → count_bytes name ≡ count_bytes prefix + n
    → (suffix : Bytes) × (name ≡ prefix ++ suffix) × (count_bytes suffix ≡ n)
unfolding has_prefix count_bytes
has_prefix-splits [] name n h e = (name, refl, ground arith)
has_prefix-splits (b ∷ bs) [] n h e = cc
has_prefix-splits (b ∷ bs) (c ∷ cs) n h e =
    let (suffix, same, count) = has_prefix-splits bs cs n (ground arith) (ground arith) in
    let first : b ≡ c = ground arith in (suffix, cc, count)

pub name_matches-IsScratchName :
    (prefix name : Bytes) → name_matches prefix name ≡ true → IsScratchName prefix name
unfolding name_matches IsScratchName
name_matches-IsScratchName prefix name h =
    has_prefix-splits prefix name 6 (ground arith) (ground arith)

-- The calls of a process agree with its members, and were safe.
unfoldable pub IsKept : Isolation → List SystemCall → Type 0
IsKept i calls =
    (inside calls ≡ i.in_scratch)
    × ((is_no_path i.scratch ≡ true) ⊎ (last_made calls ≡ some i.scratch))
    × AreSafe i.temp_root i.name_prefix calls

pub known_path : {A : Type 0} {t : Bool} → t ≡ false → (t ≡ true) ⊎ A → A
known_path h (inl e) = absurd (cc)
known_path h (inr a) = a

no_calls : inside [] ≡ false
unfolding inside
no_calls = refl

safe_before : (i : Isolation) → AreSafe i.temp_root i.name_prefix []
unfolding AreSafe
safe_before i = tt

module _ {Fs : Type 0} where
  unfoldable pub Kept : Process Fs → Type 0
  Kept s = IsKept s.isolation s.calls

  -- The same of the state that a step ends in.
  abbrev pub KeptAfter : Bytes × Process Fs → Type 0
  KeptAfter result = Kept result.1

  -- The removal of the scratch directory would be safe.
  unfoldable pub MayRemove : Process Fs → Type 0
  MayRemove s =
      IsSafeRemoval s.isolation.temp_root s.isolation.name_prefix s.isolation.scratch s.calls

  -- A process that has made no call yet.
  unfoldable pub IsFresh : Process Fs → Type 0
  IsFresh s = (s.calls ≡ []) × (s.isolation.scratch ≡ no_path) × (s.isolation.in_scratch ≡ false)

  pub fresh-Kept : (s : Process Fs) → IsFresh s → Kept s
  unfolding IsFresh Kept IsKept
  fresh-Kept s (none_yet, no_scratch, out) =
      let here : inside s.calls ≡ s.isolation.in_scratch =
        ap inside none_yet ∙ no_calls ∙ sym out in
      let i = s.isolation in
      (
        here,
        inl (ap is_no_path no_scratch),
        subst (AreSafe i.temp_root i.name_prefix) (sym none_yet) (safe_before i),
      )
