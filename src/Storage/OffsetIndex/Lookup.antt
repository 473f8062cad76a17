-- ===== src/Storage/OffsetIndex/Lookup.antt =====
-- What a lookup in the sparse index of src/OffsetIndex.cpp returns.
use stream_forge.Base.{
  ◌⊎◌, ℕ, zero, suc, ◌-◌, ◌≤◌, ◌<◌, ◌≡◌, refl, false, List, [], ◌∷◌, inl, inr, arith, ltb, ◌==◌,
  length, get_or, Bool-cases,
}
use stream_forge.Storage.OffsetIndex.{IndexEntry, upper_bound, no_entry, lookup}

abbrev pub entry_at : List IndexEntry → ℕ → IndexEntry
entry_at entries i = get_or entries i no_entry

upper_bound-le : (t : ℕ) (entries : List IndexEntry) → upper_bound t entries ≤ length entries
unfolding upper_bound
upper_bound-le t [] = omega arith
upper_bound-le t (e ∷ entries) = let h = upper_bound-le t entries in ground arith

below :
    (t : ℕ) (entries : List IndexEntry) (i : ℕ)
    → i < upper_bound t entries
    → (entry_at entries i).relative_offset ≤ t
unfolding upper_bound
below t [] i h = absurd (omega arith)
below t (e ∷ entries) zero h = ground arith
below t (e ∷ entries) (suc i) h = below t entries i (ground arith)

-- The answer is the position of the first entry, or that of an entry not above the target.
pub lookup-cases :
    (e : IndexEntry) (entries : List IndexEntry) (target : ℕ)
    → (lookup (e ∷ entries) target ≡ e.file_position)
      ⊎ ((j : ℕ) × (j < length (e ∷ entries))
          × (lookup (e ∷ entries) target ≡ (entry_at (e ∷ entries) j).file_position)
          × ((entry_at (e ∷ entries) j).relative_offset ≤ target))
unfolding lookup
lookup-cases e entries target = elim (Bool-cases (ltb target e.relative_offset)) [
  | inl b ↦ inl (rw b refl)
  | inr b ↦
      let le = upper_bound-le target entries in
      let z : (suc (upper_bound target entries) == 0) ≡ false = ground arith in
      let m : suc (upper_bound target entries) - 1 ≡ upper_bound target entries = omega arith in
      let u : upper_bound target entries < upper_bound target (e ∷ entries) =
        unfold upper_bound in ground arith in
      inr (
        upper_bound target entries,
        omega arith,
        rw (b, z, m) refl,
        below target (e ∷ entries) (upper_bound target entries) u,
      )
]
