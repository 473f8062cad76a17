-- ===== src/Group/OffsetStore/Key.antt =====
-- The keys of src/OffsetStore.cpp: a group, a topic and a partition, with bars between them.
use stream_forge.Base.{
  ℕ, ◌+◌, ◌-◌, ◌/◌, ◌%◌, ◌^◌, ◌<◌, ◌≤◌, ◌≡◌, refl, ap, ◌∙◌, [], ◌∷◌, ◌++◌, Bool, true, false, ◌&&◌,
  ◌||◌, not, Option, none, some, arith, leb, ltb, ◌==◌, if◌then◌else◌, All, Bool-cases, inl, inr,
  suc, zero, length, ltb→lt, ge→ltb, length-append,
}
use stream_forge.Base.Strings.{Name}
use stream_forge.Base.Decimal.{to_string, digits, value, value-digits}

unfoldable pub make_key : Name → Name → ℕ → Name
make_key group_id topic partition = group_id ++ (b'|' ∷ (topic ++ (b'|' ∷ to_string partition)))

abbrev pub behind_char : ℕ → Option (Name × Name) → Option (Name × Name)
behind_char c none = none
behind_char c (some (s, t)) = some (c ∷ s, t)

-- What stands before the first bar, and behind it.
unfoldable pub split_pipe : Name → Option (Name × Name)
split_pipe [] = none
split_pipe (c ∷ cs) =
    let rest = split_pipe cs in if c == b'|' then some ([], cs) else behind_char c rest

-- std::isspace in the "C" locale
abbrev pub is_space : ℕ → Bool
is_space c = c == b' ' || leb 9 c && leb c 13

abbrev pub is_digit : ℕ → Bool
is_digit c = leb b'0' c && leb c b'9'

abbrev pub all_digits : Name → Bool
all_digits [] = true
all_digits (c ∷ cs) = is_digit c && all_digits cs

-- The digits that std::stoul reads to the end of the text, if there are any; unsigned long has 32 bits,
-- as on Windows.
abbrev pub stoul_digits : Bool → Name → Option ℕ
stoul_digits negative [] = none
stoul_digits negative (c ∷ cs) =
    if not (all_digits (c ∷ cs))
    then none
    else if leb (2 ^ 32) (value 0 (c ∷ cs))
    then none
    else some (if negative then (2 ^ 32 - value 0 (c ∷ cs)) % 2 ^ 32 else value 0 (c ∷ cs))

abbrev pub stoul_signed : Name → Option ℕ
stoul_signed [] = none
stoul_signed (c ∷ cs) =
    if c == b'-'
    then stoul_digits true cs
    else if c == b'+'
    then stoul_digits false cs
    else stoul_digits false (c ∷ cs)

-- std::stoul of a text that is read to its end.
unfoldable pub stoul : Name → Option ℕ
stoul [] = none
stoul (c ∷ cs) = let rest = stoul cs in if is_space c then rest else stoul_signed (c ∷ cs)

abbrev pub is_empty : Name → Bool
is_empty [] = true
is_empty (c ∷ cs) = false

-- The three parts of a key.
abbrev pub parts_of : Name → Name → Option ℕ → Option (Name × Name × ℕ)
parts_of group_id topic none = none
parts_of group_id topic (some p) =
    if is_empty group_id || is_empty topic
    then none
    else if ltb 0xffff p
    then none
    else some (group_id, topic, p)

abbrev pub parse_topic : Name → Option (Name × Name) → Option (Name × Name × ℕ)
parse_topic group_id none = none
parse_topic group_id (some (topic, part_str)) = parts_of group_id topic (stoul part_str)

abbrev pub parse_group : Option (Name × Name) → Option (Name × Name × ℕ)
parse_group none = none
parse_group (some (group_id, rest)) = parse_topic group_id (split_pipe rest)

unfoldable pub parse_key : Name → Option (Name × Name × ℕ)
parse_key key_str = parse_group (split_pipe key_str)

-- A name without a bar.
abbrev pub NoPipe : Name → Type 0
NoPipe = All (λ c. (c == b'|') ≡ false)

split_pipe-append : (s t : Name) → NoPipe s → split_pipe (s ++ (b'|' ∷ t)) ≡ some (s, t)
unfolding split_pipe
split_pipe-append [] t h = refl
split_pipe-append (c ∷ s) t h = rw (h.0, split_pipe-append s t h.1) refl

abbrev IsDigit : ℕ → Type 0
IsDigit c = (b'0' ≤ c) × (c ≤ b'9')

snoc_digits : (s : Name) (c : ℕ) → All IsDigit s → IsDigit c → All IsDigit (s ++ (c ∷ []))
snoc_digits [] c h k = (k, tt)
snoc_digits (d ∷ s) c h k = (h.0, snoc_digits s c h.1 k)

digits-IsDigit : (k n : ℕ) → All IsDigit (digits k n)
unfolding digits
digits-IsDigit zero n = tt
digits-IsDigit (suc k) n = elim (Bool-cases (ltb n 10)) [
  | inl e ↦ rw e ((omega arith, let l = ltb→lt n 10 e in omega arith), tt)
  | inr e ↦ rw e (
      snoc_digits (digits k (n / 10)) (48 + n % 10) (digits-IsDigit k (n / 10))
        (omega arith, omega arith))
]

all_digits_lem : (s : Name) → All IsDigit s → all_digits s ≡ true
all_digits_lem [] h = refl
all_digits_lem (c ∷ s) h =
    let a = h.0.0 in
    let b = h.0.1 in let d : is_digit c ≡ true = ground arith in rw (d, all_digits_lem s h.1) refl

stoul_lem :
    (s : Name) → All IsDigit s → 0 < length s → value 0 s < 2 ^ 32 → stoul s ≡ some (value 0 s)
unfolding stoul
stoul_lem [] h p v = absurd (omega arith)
stoul_lem (c ∷ s) h p v =
    let a = h.0.0 in
    let b = h.0.1 in
    let sp : is_space c ≡ false = ground arith in
    let m : (c == b'-') ≡ false = ground arith in
    let q : (c == b'+') ≡ false = ground arith in
    let d : all_digits (c ∷ s) ≡ true = all_digits_lem (c ∷ s) h in
    let l : leb (2 ^ 32) (value 0 (c ∷ s)) ≡ false = ground arith in rw (sp, m, q, d, l) refl

digits-length : (k n : ℕ) → 0 < k → 0 < length (digits k n)
unfolding digits
digits-length zero n h = absurd (omega arith)
digits-length (suc k) n h = elim (Bool-cases (ltb n 10)) [
  | inl e ↦ rw e (omega arith)
  | inr e ↦ rw e (omega (arith, length-append (digits k (n / 10)) ((48 + n % 10) ∷ [])))
]

stoul-to_string : (n : ℕ) → n < 2 ^ 16 → stoul (to_string n) ≡ some n
stoul-to_string n h =
    let v : value 0 (to_string n) ≡ n = value-digits 20 n (omega arith) (omega arith) in
    stoul_lem (to_string n) (digits-IsDigit 20 n) (digits-length 20 n (omega arith)) (omega arith)
    ∙ ap some v

-- A key is taken apart into what it was made of, where neither name is empty or has a bar.
pub parse_key-make_key :
    (g : ℕ) (gs : Name) (t : ℕ) (ts : Name) (partition : ℕ)
    → NoPipe (g ∷ gs)
    → NoPipe (t ∷ ts)
    → partition < 2 ^ 16
    → parse_key (make_key (g ∷ gs) (t ∷ ts) partition) ≡ some (g ∷ gs, t ∷ ts, partition)
unfolding parse_key make_key
parse_key-make_key g gs t ts partition hg ht p =
    let l : ltb 0xffff partition ≡ false = ge→ltb 0xffff partition (omega arith) in
    rw
      (
        split_pipe-append (g ∷ gs) (t ∷ (ts ++ (b'|' ∷ to_string partition))) hg,
        split_pipe-append (t ∷ ts) (to_string partition) ht,
        stoul-to_string partition p,
        l,
      )
      refl
