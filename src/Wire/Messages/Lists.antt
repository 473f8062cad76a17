-- ===== src/Wire/Messages/Lists.antt =====
-- Lists of elements in the messages of include/streamforge/ProtocolMessages.hpp: what is read of what was
-- written.
use stream_forge.Base.{
  ℕ, suc, ◌+◌, ◌*◌, ◌≤◌, ◌≡◌, sym, ap, ◌∙◌, List, [], ◌∷◌, ◌++◌, arith, length, length-append, All,
  append_assoc, append-nil, ltb, ge→ltb, false,
}
use stream_forge.Wire.ByteOrder.{ByteOrder}
use stream_forge.Wire.Body.{remaining}
use stream_forge.Wire.Body.RoundTrip.{remaining_lem}
use stream_forge.Wire.Body.Reads.{Read, ◌>>=◌, Reads, pure-Reads, bind-Reads}
use stream_forge.Wire.Messages.{read_list, write_list}
use stream_forge.Wire.Messages.Groups.{require}

module _ {ℓ} {A : Type ℓ} (bytes : A → List ℕ) where
  abbrev pub list_bytes : List A → List ℕ
  list_bytes [] = []
  list_bytes (x ∷ xs) = bytes x ++ (list_bytes xs ++ [])

  -- Each element has a least length.
  pub length-list_bytes :
      (k : ℕ) (xs : List A)
      → All (λ x. k ≤ length (bytes x)) xs
      → length xs * k ≤ length (list_bytes xs)
  length-list_bytes k [] h = omega arith
  length-list_bytes k (x ∷ xs) h =
      let e : suc (length xs) * k ≡ length xs * k + k = omega arith in
      let a = length-list_bytes k xs h.1 in
      let b = h.0 in
      let c = length-append (bytes x) (list_bytes xs ++ []) in
      let d = length-append (list_bytes xs) [] in omega arith

module _ {ℓ} {A : Type ℓ} (bytes : A → List ℕ) (P : A → Type 0) where
  pub read_list-Reads :
      (p : Read A)
      → ((x : A) → P x → Reads p (bytes x) x)
      → (xs : List A) → All P xs
      → Reads (read_list p (length xs)) (list_bytes bytes xs) xs
  unfolding read_list
  read_list-Reads p step [] h = pure-Reads []
  read_list-Reads p step (x ∷ xs) h = bind-Reads p _ (bytes x) _ x (x ∷ xs) (step x h.0) (
      bind-Reads (read_list p (length xs)) _ (list_bytes bytes xs) [] xs (x ∷ xs)
        (read_list-Reads p step xs h.1) (pure-Reads (x ∷ xs)))

  pub write_list-bytes :
      (write : List ℕ → A → List ℕ)
      → ((writer : List ℕ) (x : A) → P x → write writer x ≡ writer ++ bytes x)
      → (writer : List ℕ) (xs : List A) → All P xs
      → write_list write writer xs ≡ writer ++ list_bytes bytes xs
  unfolding write_list
  write_list-bytes write step writer [] h = sym (append-nil writer)
  write_list-bytes write step writer (x ∷ xs) h =
      write_list-bytes write step (write writer x) xs h.1
      ∙ ap (λ w. w ++ list_bytes bytes xs) (step writer x h.0)
      ∙ append_assoc writer (bytes x) (list_bytes bytes xs)
      ∙ ap (λ l. writer ++ (bytes x ++ l)) (sym (append-nil (list_bytes bytes xs)))

module _ ⦃net : ByteOrder⦄ where
  -- Enough is left, if the bytes ahead are as many.
  pub require-Reads {κ} :
      {B : Type κ} (n : ℕ) (f : Unit {0} → Read B) (ys : List ℕ) (b : B)
      → n ≤ length ys
      → Reads (f tt) ys b
      → Reads (require n >>= f) ys b
  unfolding require
  require-Reads n f ys b le h r rest ahead =
      let e : ltb (remaining r) n ≡ false =
        ge→ltb (remaining r) n
          (omega (arith, remaining_lem r (ys ++ rest) ahead, length-append ys rest)) in
      rw e (h r rest ahead)
