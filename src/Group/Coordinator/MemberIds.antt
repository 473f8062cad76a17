-- ===== src/Group/Coordinator/MemberIds.antt =====
-- The ids that src/GroupCoordinator.cpp makes for new members.
use stream_forge.Base.{
  ℕ, ◌-◌, ◌<◌, ◌^◌, ◌≡◌, sym, ap, ◌∙◌, ◌∷◌, ◌++◌, arith, length, take, drop, length-append,
  drop-length_append, take-length_append,
}
use stream_forge.Base.Strings.{Name}
use stream_forge.Base.Decimal.{to_string, pad, value, value-pad}
use stream_forge.Group.Coordinator.{generate_member_id, hex4}

-- The number in front of a dash and four digits.
number_in : Name → ℕ
number_in s = value 0 (take (length s - 5) s)

number_in-lem :
    (counter rand_val : ℕ)
    → counter < 2 ^ 64
    → number_in (pad 8 (to_string counter) ++ (b'-' ∷ hex4 rand_val)) ≡ counter
unfolding number_in
number_in-lem counter rand_val h =
    let s : Name = pad 8 (to_string counter) in
    let t : Name = b'-' ∷ hex4 rand_val in
    let e : length (s ++ t) - 5 ≡ length s = omega (arith, length-append s t) in
    rw (e, take-length_append s t) (value-pad 8 counter (omega arith))

-- The counter can be read off an id.
counter_in : Name → Name → ℕ
counter_in group_id id = number_in (drop 1 (drop (length group_id) id))

read_back :
    (group_id : Name) (n s : ℕ)
    → n < 2 ^ 64
    → counter_in group_id (generate_member_id group_id n s) ≡ n
unfolding counter_in generate_member_id
read_back group_id n s h =
    rw (drop-length_append group_id (b'-' ∷ (pad 8 (to_string n) ++ (b'-' ∷ hex4 s))))
      (number_in-lem n s h)

-- Ids that are the same were made under the same value of the counter: with each new value of the
-- 64-bit counter a group gets a new id, whatever the random part.
pub generate_member_id-injective :
    (group_id : Name) (c c' r r' : ℕ)
    → c < 2 ^ 64
    → c' < 2 ^ 64
    → generate_member_id group_id c r ≡ generate_member_id group_id c' r'
    → c ≡ c'
generate_member_id-injective group_id c c' r r' h h' e =
    sym (read_back group_id c r h) ∙ ap (counter_in group_id) e ∙ read_back group_id c' r' h'
