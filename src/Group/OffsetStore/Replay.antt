-- ===== src/Group/OffsetStore/Replay.antt =====
-- What the loading loop of src/OffsetStore.cpp makes of a partition: its records, one after another.
use stream_forge.Base.{
  ℕ, zero, suc, ◌+◌, ◌-◌, ◌%◌, ◌^◌, ◌<◌, ◌≤◌, ◌≡◌, refl, sym, ap, ◌∙◌, subst, List, [], ◌∷◌, ◌++◌,
  Bool, some, arith, ltb, leb, ◌==◌, ◌||◌, ltb→lt, ltb→ge, length, take, drop, drop-add, drop_all,
  take-append-drop, length-take, length-drop, flatten, All, All-take, All-drop, Bool-cases, inl,
  inr,
}
use stream_forge.Base.Strings.{Name, put}
use stream_forge.Status.{done}
use stream_forge.Wire.ByteOrder.{ByteOrder}
use stream_forge.Storage.RecordCodec.{Record}
use stream_forge.Storage.Partition.{Partition, earliest_offset, record_size}
use stream_forge.Storage.Partition.Read.{Limits, read}
use stream_forge.Storage.Partition.Contents.{Contains, Numbered}
use stream_forge.Storage.Partition.Reading.{limited, read-limited, Chain-Numbered, Chain-earliest}
use stream_forge.Group.OffsetStore.{
  Cache, entry_of, load_records, load_read, load_from, read_limits, open_and_recover,
}
use stream_forge.Group.OffsetStore.Key.{parse_key}

-- A record that a commit could have written.
pub record IsCommit (r : Record) : Type 0 where
  pub key : Name × Name × ℕ
  pub parsed : parse_key r.key ≡ some key
  pub size : length r.value ≡ 16

-- A limited prefix: some records, and at least one if there is one.
pub record Prefix (rs ls : List Record) : Type 0 where
  pub count : ℕ
  pub is_take : ls ≡ take count rs
  pub within : count ≤ length rs
  pub progress : 0 < length rs → 0 < count

pub limited-Prefix :
    (limits : Limits) (messages bytes : ℕ) (rs : List Record)
    → Prefix rs (limited limits messages bytes rs)
limited-Prefix limits messages bytes [] = record {
  count = 0;
  is_take = refl;
  within = omega arith;
  progress = λ h. h;
}
limited-Prefix limits messages bytes (r ∷ rs) =
    let bytes' : ℕ = (bytes + record_size r.key r.value) % 2 ^ 64 in
    elim (Bool-cases (leb limits.max_messages (messages + 1) || leb limits.max_bytes bytes')) [
      | inl e ↦ record {
        count = 1;
        is_take = rw e refl;
        within = omega arith;
        progress = λ h. omega arith;
      }
      | inr e ↦
          let p = limited-Prefix limits (messages + 1) bytes' rs in
          record {
            count = suc p.count;
            is_take = rw e (ap (◌∷◌ r) p.is_take);
            within = let w = p.within in omega arith;
            progress = λ h. omega arith;
          }
    ]

Numbered-take : (k n : ℕ) (rs : List Record) → Numbered n rs → Numbered n (take k rs)
Numbered-take zero n rs h = tt
Numbered-take (suc k) n [] h = tt
Numbered-take (suc k) n (r ∷ rs) h = (h.0, Numbered-take k (n + 1) rs h.1)

Numbered-drop : (k n : ℕ) (rs : List Record) → Numbered n rs → Numbered (n + k) (drop k rs)
Numbered-drop zero n rs h = let e : n + 0 ≡ n = omega arith in subst (λ m. Numbered m rs) (sym e) h
Numbered-drop (suc k) n [] h = tt
Numbered-drop (suc k) n (r ∷ rs) h =
    let e : n + suc k ≡ n + 1 + k = omega arith in
    subst (λ m. Numbered m (drop k rs)) (sym e) (Numbered-drop k (n + 1) rs h.1)

module _ ⦃net : ByteOrder⦄ where
  -- The table after these records.
  abbrev pub replay : List Record → Cache → Cache
  replay [] cache = cache
  replay (r ∷ rs) cache = replay rs (put r.key (entry_of r.value) cache)

  pub replay-append :
      (xs ys : List Record) (cache : Cache) → replay (xs ++ ys) cache ≡ replay ys (replay xs cache)
  replay-append [] ys cache = refl
  replay-append (x ∷ xs) ys cache = replay-append xs ys (put x.key (entry_of x.value) cache)

  load_records_lem :
      (n : ℕ) (rs : List Record) (cache : Cache)
      → All IsCommit rs
      → Numbered n rs
      → n + length rs < 2 ^ 64
      → load_records rs cache n ≡ done (replay rs cache, n + length rs)
  unfolding load_records
  load_records_lem n [] cache h num room = ap (λ k. done (cache, k)) (omega arith)
  load_records_lem n (r ∷ rs) cache h num room =
      let s : (length r.value == 16) ≡ Bool.true = let z = h.0.size in ground arith in
      let o : (r.offset + 1) % 2 ^ 64 ≡ n + 1 = let z = num.0 in omega arith in
      let k : n + 1 + length rs ≡ n + length (r ∷ rs) = omega arith in
      rw (load_records, h.0.parsed, s, o)
        (load_records_lem (n + 1) rs (put r.key (entry_of r.value) cache) h.1 num.1 (omega arith)
          ∙ ap (λ j. done (replay (r ∷ rs) cache, j)) k)

  load_read_lem :
      (m : ℕ) (ls : List Record) (cache : Cache)
      → 0 < length ls
      → All IsCommit ls
      → Numbered m ls
      → m + length ls < 2 ^ 64
      → load_read cache m (ls, done tt) ≡ done (replay ls cache, some (m + length ls))
  unfolding load_read
  load_read_lem m [] cache p h num room = absurd (omega arith)
  load_read_lem m (r ∷ ls) cache p h num room =
      rw (load_read, load_records_lem m (r ∷ ls) cache h num room) refl

  module _ (p : Partition) (n : ℕ) (rss : List (List Record)) (c : Contains p n rss)
      (commits : All IsCommit (flatten rss)) where
    abbrev all : List Record
    all = flatten rss

    load_from_lem :
        (fuel k : ℕ) (cache : Cache)
        → k ≤ length all
        → length all - k < fuel
        → load_from fuel p cache (n + k) ≡ done (replay (drop k all) cache)
    unfolding load_from
    load_from_lem zero k cache h f = absurd (omega arith)
    load_from_lem (suc fuel) k cache h f =
        let (num, e) = Chain-Numbered c.chain in
        elim (Bool-cases (ltb (n + k) p.next_offset)) [
          | inr l ↦
              let past : length all ≤ k = let g = ltb→ge (n + k) p.next_offset l in omega arith in
              rw (load_from, l) (ap (λ xs. done (replay xs cache)) (sym (drop_all k all past)))
          | inl l ↦
              let g : n + k < p.next_offset = ltb→lt (n + k) p.next_offset l in
              let d : n + k - n ≡ k = omega arith in
              let tail : List Record = drop k all in
              let read_k : read p (n + k) read_limits ≡ (limited read_limits 0 0 tail, done tt) =
                read-limited p n (n + k) rss read_limits c (omega arith) (omega arith)
                ∙ ap (λ j. (limited read_limits 0 0 (drop j all), done tt)) d in
              let pre = limited-Prefix read_limits 0 0 tail in
              let len : length tail ≡ length all - k = length-drop k all in
              let some_read : 0 < pre.count = pre.progress (omega arith) in
              let within : pre.count ≤ length tail = pre.within in
              let head : List Record = take pre.count tail in
              let len_head : length head ≡ pre.count = length-take pre.count tail ∙ omega arith in
              let room : n + k + length head < 2 ^ 64 = let q = c.room in omega arith in
              let loaded : load_read cache (n + k) (read p (n + k) read_limits)
                  ≡ done (replay head cache, some (n + k + length head)) =
                ap (load_read cache (n + k)) (read_k ∙ ap (λ xs. (xs, done tt)) pre.is_take)
                ∙ load_read_lem (n + k) head cache (omega arith)
                    (All-take IsCommit pre.count tail (All-drop IsCommit k all commits))
                    (Numbered-take pre.count (n + k) tail (Numbered-drop k n all num)) room in
              let next : n + k + length head ≡ n + (k + pre.count) = omega arith in
              rw (load_from, l, loaded, next)
                (load_from_lem fuel (k + pre.count) (replay head cache) (omega arith) (omega arith)
                  ∙ ap (λ xs. done (replay xs (replay head cache))) (drop-add k pre.count all)
                  ∙ ap done (
                      sym (replay-append head (drop pre.count tail) cache)
                      ∙ ap (λ xs. replay xs cache) (take-append-drop pre.count tail)))
        ]

    -- Recovery gives the table that the records of the partition make, one after another, however many
    -- reads it takes and across however many segments. (Each record is one that a commit could have
    -- written.)
    pub open_and_recover-replay :
        open_and_recover (some p)
        ≡ done (record { offsets_partition = some p; cache = replay all [] })
    unfolding open_and_recover
    open_and_recover-replay =
        let (num, e) = Chain-Numbered c.chain in
        let a : earliest_offset p ≡ n = Chain-earliest p c.chain refl in
        let z : n + 0 ≡ n = omega arith in
        let f : load_from (suc (p.next_offset - n)) p [] n ≡ done (replay all []) =
          ap (load_from (suc (p.next_offset - n)) p []) (sym z)
          ∙ load_from_lem (suc (p.next_offset - n)) 0 [] (omega arith) (omega arith) in
        rw (open_and_recover, a, f) refl
