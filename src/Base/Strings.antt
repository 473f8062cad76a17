-- ===== src/Base/Strings.antt =====
-- Strings as their bytes, and unordered maps with strings for keys as association lists.
use Prim.Native.Nat.{ℕ, suc}
use mathlib.Core.Path.{◌≡◌, refl, sym, ap, ◌∙◌, subst}
use mathlib.Core.Logic.{◌≢◌, ◌⊎◌, inl, inr}
use mathlib.Core.Bool.{Bool, true, false, ◌&&◌}
use mathlib.Core.Option.{Option, none, some}
use mathlib.Core.List.{List, [], ◌∷◌, ◌++◌}
use native.Mathlib.Omega.{arith}
use stream_forge.Base.Lists.{length, All, All-middle}
use stream_forge.Base.Tests.{ltb, ◌==◌, if◌then◌else◌, Bool-cases}

abbrev pub Name : Type 0
Name = List ℕ

unfoldable pub name_eq : Name → Name → Bool
name_eq [] [] = true
name_eq [] (b ∷ t) = false
name_eq (a ∷ s) [] = false
name_eq (a ∷ s) (b ∷ t) = a == b && name_eq s t

-- std::string's operator<, by bytes.
unfoldable pub name_lt : Name → Name → Bool
name_lt s [] = false
name_lt [] (b ∷ t) = true
name_lt (a ∷ s) (b ∷ t) = let rest = name_lt s t in if a == b then rest else ltb a b

pub name_eq_refl : (s : Name) → name_eq s s ≡ true
unfolding name_eq
name_eq_refl [] = refl
name_eq_refl (a ∷ s) = let e : (a == a) ≡ true = ground arith in rw (e, name_eq_refl s) refl

pub name_eq→≡ : (s t : Name) → name_eq s t ≡ true → s ≡ t
unfolding name_eq
name_eq→≡ [] [] h = refl
name_eq→≡ [] (b ∷ t) h = absurd cc
name_eq→≡ (a ∷ s) [] h = absurd cc
name_eq→≡ (a ∷ s) (b ∷ t) h = elim (Bool-cases (a == b)) [
  | inl e ↦
      let d : a ≡ b = ground arith in
      let k : name_eq s t ≡ true = rw e at h in rw (d, name_eq→≡ s t k) refl
  | inr e ↦ absurd (let k : false ≡ true = rw e at h in cc)
]

pub name_eq→≢ : (s t : Name) → name_eq s t ≡ false → s ≢ t
name_eq→≢ s t h e =
    absurd
      (let d : name_eq s t ≡ true = rw e (name_eq_refl t) in let f : false ≡ true = sym h ∙ d in cc)

pub ≢→name_eq : (s t : Name) → s ≢ t → name_eq s t ≡ false
≢→name_eq s t h = elim (Bool-cases (name_eq s t)) [
  | inl e ↦ absurd (h (name_eq→≡ s t e))
  | inr e ↦ e
]

module _ {ℓ} {A : Type ℓ} where
  unfoldable pub find : Name → List (Name × A) → Option A
  find k [] = none
  find k ((j, a) ∷ entries) = let rest = find k entries in if name_eq j k then some a else rest

  -- entries[k] = a
  unfoldable pub put : Name → A → List (Name × A) → List (Name × A)
  put k a [] = (k, a) ∷ []
  put k a ((j, b) ∷ entries) =
      let rest = put k a entries in if name_eq j k then (j, a) ∷ entries else (j, b) ∷ rest

  unfoldable pub erase : Name → List (Name × A) → List (Name × A)
  erase k [] = []
  erase k ((j, a) ∷ entries) =
      let rest = erase k entries in if name_eq j k then entries else (j, a) ∷ rest

  abbrev pub keys : List (Name × A) → List Name
  keys [] = []
  keys ((j, a) ∷ entries) = j ∷ keys entries

-- No name stands there twice.
abbrev pub Distinct : List Name → Type 0
Distinct [] = Unit {0}
Distinct (k ∷ ks) = All (λ j. k ≢ j) ks × Distinct ks

module _ {ℓ} {A : Type ℓ} where
  pub find-put : (k : Name) (a : A) (entries : List (Name × A)) → find k (put k a entries) ≡ some a
  unfolding find put
  find-put k a [] = rw (name_eq_refl k) refl
  find-put k a ((j, b) ∷ entries) = elim (Bool-cases (name_eq j k)) [
    | inl e ↦ rw (e, e) refl
    | inr e ↦ rw (e, e) (find-put k a entries)
  ]

  pub find-put_other :
      (i k : Name) (a : A) (entries : List (Name × A))
      → k ≢ i
      → find i (put k a entries) ≡ find i entries
  unfolding find put
  find-put_other i k a [] h = rw (≢→name_eq k i h) refl
  find-put_other i k a ((j, b) ∷ entries) h = elim (Bool-cases (name_eq j k)) [
    | inl e ↦ let d : name_eq j i ≡ false = rw (name_eq→≡ j k e) (≢→name_eq k i h) in rw (e, d) refl
    | inr e ↦ rw (e, find-put_other i k a entries h) refl
  ]

module _ {ℓ} {A : Type ℓ} where
  pub find_here :
      (k : Name) (a : A) (entries : List (Name × A)) → find k ((k, a) ∷ entries) ≡ some a
  unfolding find
  find_here k a entries = rw (name_eq_refl k) refl

  pub find_skip :
      (j k : Name) (a : A) (entries : List (Name × A))
      → j ≢ k
      → find k ((j, a) ∷ entries) ≡ find k entries
  unfolding find
  find_skip j k a entries h = rw (≢→name_eq j k h) refl

-- The name stands there.
abbrev pub In : Name → List Name → Type 0
In k [] = ⊥
In k (j ∷ ks) = (j ≡ k) ⊎ In k ks

-- What holds of all names but for one that is added.
pub All-map {ℓ κ} :
    {A : Type ℓ} {P Q : A → Type κ} (xs : List A) → ((x : A) → P x → Q x) → All P xs → All Q xs
All-map [] f h = tt
All-map (x ∷ xs) f h = (f x h.0, All-map xs f h.1)

pub All-In : (ks : List Name) → All (λ k. In k ks) ks
All-In [] = tt
All-In (k ∷ ks) = (inl refl, All-map ks (λ j h. inr h) (All-In ks))

-- Where a name stands in the middle, it is none of those in front.
pub Distinct-middle :
    (xs : List Name) (k : Name) (ys : List Name) → Distinct (xs ++ (k ∷ ys)) → All (λ j. j ≢ k) xs
Distinct-middle [] k ys h = tt
Distinct-middle (x ∷ xs) k ys h = (All-middle (λ j. x ≢ j) xs k ys h.0, Distinct-middle xs k ys h.1)

pub some_injective {ℓ} : {A : Type ℓ} {a b : A} → some a ≡ some b → a ≡ b
some_injective {a = a} e = ap (λ o. elim o [ none ↦ a | some c ↦ c ]) e

-- What holds of all values of a map.
abbrev pub AllValues {ℓ κ} : {A : Type ℓ} → (A → Type κ) → List (Name × A) → Type κ
AllValues P [] = Unit
AllValues P ((k, a) ∷ entries) = P a × AllValues P entries

module _ {ℓ} {A : Type ℓ} where
  pub AllValues-find {κ} :
      (P : A → Type κ) (k : Name) (entries : List (Name × A)) (a : A)
      → AllValues P entries
      → find k entries ≡ some a
      → P a
  unfolding find
  AllValues-find P k [] a h e = absurd cc
  AllValues-find P k ((j, b) ∷ entries) a h e = elim (Bool-cases (name_eq j k)) [
    | inl d ↦ let i : b ≡ a = some_injective (rw d at e) in subst P i h.0
    | inr d ↦ AllValues-find P k entries a h.1 (rw d at e)
  ]

  pub AllValues-put {κ} :
      (P : A → Type κ) (k : Name) (a : A) (entries : List (Name × A))
      → AllValues P entries
      → P a
      → AllValues P (put k a entries)
  unfolding put
  AllValues-put P k a [] h p = (p, tt)
  AllValues-put P k a ((j, b) ∷ entries) h p = elim (Bool-cases (name_eq j k)) [
    | inl d ↦ rw d (p, h.1)
    | inr d ↦ rw d (h.0, AllValues-put P k a entries h.1 p)
  ]

  All-keys-put :
      (P : Name → Type 0) (k : Name) (a : A) (entries : List (Name × A))
      → All P (keys entries)
      → P k
      → All P (keys (put k a entries))
  unfolding put
  All-keys-put P k a [] h p = (p, tt)
  All-keys-put P k a ((j, b) ∷ entries) h p = elim (Bool-cases (name_eq j k)) [
    | inl d ↦ rw d h
    | inr d ↦ rw d (h.0, All-keys-put P k a entries h.1 p)
  ]

  pub put-Distinct :
      (k : Name) (a : A) (entries : List (Name × A))
      → Distinct (keys entries)
      → Distinct (keys (put k a entries))
  unfolding put
  put-Distinct k a [] h = (tt, tt)
  put-Distinct k a ((j, b) ∷ entries) h = elim (Bool-cases (name_eq j k)) [
    | inl d ↦ rw d h
    | inr d ↦
        let n : j ≢ k = name_eq→≢ j k d in
        rw d (All-keys-put (λ i. j ≢ i) k a entries h.0 n, put-Distinct k a entries h.1)
  ]

  All-keys-erase :
      (P : Name → Type 0) (k : Name) (entries : List (Name × A))
      → All P (keys entries)
      → All P (keys (erase k entries))
  unfolding erase
  All-keys-erase P k [] h = tt
  All-keys-erase P k ((j, b) ∷ entries) h = elim (Bool-cases (name_eq j k)) [
    | inl d ↦ rw d h.1
    | inr d ↦ rw d (h.0, All-keys-erase P k entries h.1)
  ]

  pub erase-Distinct :
      (k : Name) (entries : List (Name × A))
      → Distinct (keys entries)
      → Distinct (keys (erase k entries))
  unfolding erase
  erase-Distinct k [] h = tt
  erase-Distinct k ((j, b) ∷ entries) h = elim (Bool-cases (name_eq j k)) [
    | inl d ↦ rw d h.1
    | inr d ↦ rw d (All-keys-erase (λ i. j ≢ i) k entries h.0, erase-Distinct k entries h.1)
  ]

  -- A key that is there keeps its place.
  pub keys-put :
      (k : Name) (a b : A) (entries : List (Name × A))
      → find k entries ≡ some b
      → keys (put k a entries) ≡ keys entries
  unfolding find put
  keys-put k a b [] h = absurd cc
  keys-put k a b ((j, c) ∷ entries) h = elim (Bool-cases (name_eq j k)) [
    | inl d ↦ rw d refl
    | inr d ↦ rw d (ap (◌∷◌ j) (keys-put k a b entries (rw d at h)))
  ]

  pub length-keys : (entries : List (Name × A)) → length (keys entries) ≡ length entries
  length-keys [] = refl
  length-keys ((k, a) ∷ entries) = ap suc (length-keys entries)
