-- ===== src/Storage/LogSegment/Scan/Loop.antt =====
-- The scan loop of src/LogSegment.cpp goes through whole records and breaks at a torn one.
use native.Mathlib.Nat.{suc-add, zero-add}
use stream_forge.Base.{
  ℕ, zero, suc, ◌+◌, ◌^◌, ◌≤◌, ◌<◌, ◌≡◌, sym, ap, ◌∙◌, List, [], ◌∷◌, ◌++◌, arith, append-nil,
  append_assoc, true, false, ltb, none, some, length, length-append, length-take, take,
  take-append_le, take-take, take-length_append, All, Bool-cases, inl, inr, ge→ltb, lt→ltb, ltb→lt,
  ltb→ge,
}
use stream_forge.Status.{done}
use stream_forge.Storage.RecordCodec.{Record, read_u32, encode, decode, max_record_size}
use stream_forge.Storage.RecordCodec.Layout.{IsRecord}
use stream_forge.Storage.RecordCodec.RoundTrip.{length-encode, decode-encode}
use stream_forge.Storage.RecordCodec.Torn.{read_len-take}
use stream_forge.Storage.File.{read_at, read_at-append, read_at-past}
use stream_forge.Storage.LogSegment.Contents.{encodes}
use stream_forge.Storage.LogSegment.Scan.{Scan, note, scan_record, scan}

-- A round whose four checks pass hands the bytes to `decode`.
scan_record_lem :
    (file : List ℕ) (size pos : ℕ) {header buf : List ℕ} {r : Record}
    → pos + 28 ≤ size
    → size < 2 ^ 32
    → read_at file pos 28 ≡ some header
    → 24 ≤ read_u32 header 0
    → read_u32 header 0 ≤ max_record_size
    → pos + (4 + read_u32 header 0) ≤ size
    → read_at file pos (4 + read_u32 header 0) ≡ some buf
    → decode buf ≡ done r
    → scan_record file size pos ≡ done (some (r, buf))
unfolding scan_record
scan_record_lem file size pos h small e lo hi fits f d = ground arith

scan_record_short :
    (file : List ℕ) (size pos : ℕ)
    → read_at file pos 28 ≡ none
    → scan_record file size pos ≡ done none
unfolding scan_record
scan_record_short file size pos e = ground arith

scan_record_cut :
    (file : List ℕ) (size pos : ℕ) {header : List ℕ}
    → read_at file pos 28 ≡ some header
    → read_at file pos (4 + read_u32 header 0) ≡ none
    → scan_record file size pos ≡ done none
unfolding scan_record
scan_record_cut file size pos e f = ground arith

pub header-encode :
    (r : Record) (rest : List ℕ)
    → IsRecord r
    → read_u32 (take 28 (encode r ++ rest)) 0 ≡ 24 + length r.key + length r.value
header-encode r rest v =
    rw (take-append_le 28 (encode r) rest (omega (arith, length-encode r))) (read_len-take r 0 v)

-- A whole record behind `front` is found, whatever follows it.
pub scan_record-encode :
    (front rest : List ℕ) (r : Record)
    → IsRecord r
    → length (front ++ (encode r ++ rest)) < 2 ^ 32
    → scan_record
        (front ++ (encode r ++ rest))
        (length (front ++ (encode r ++ rest)))
        (length front)
      ≡ done (some (r, encode r))
scan_record-encode front rest r v small =
    let back : List ℕ = encode r ++ rest in
    let n : length (front ++ back) ≡ length front + length back = length-append front back in
    let m : length back ≡ length (encode r) + length rest = length-append (encode r) rest in
    let e : length (encode r) ≡ 28 + length r.key + length r.value = length-encode r in
    let l : read_u32 (take 28 back) 0 ≡ 24 + length r.key + length r.value =
      header-encode r rest v in
    let t : 4 + read_u32 (take 28 back) 0 ≡ length (encode r) = omega arith in
    let b : read_at (front ++ back) (length front) (4 + read_u32 (take 28 back) 0)
        ≡ some (encode r) =
      rw t (
        read_at-append front back (length (encode r)) (omega arith)
        ∙ ap some (take-length_append (encode r) rest)) in
    scan_record_lem (front ++ back) _ (length front) (omega arith) small
      (read_at-append front back 28 (omega arith)) (omega arith) (omega (arith, v.size_fits))
      (omega arith) b (rw append-nil at (decode-encode r [] v))

-- A proper prefix of a record is not.
pub scan_record-torn :
    (front : List ℕ) (r : Record) (n size : ℕ)
    → IsRecord r
    → n < length (encode r)
    → scan_record (front ++ take n (encode r)) size (length front) ≡ done none
scan_record-torn front r n size v h =
    let back : List ℕ = take n (encode r) in
    let m : length back ≡ n = omega (arith, length-take n (encode r)) in
    let l : length (front ++ back) ≡ length front + n =
      length-append front back ∙ ap (λ k. length front + k) m in
    elim (Bool-cases (ltb n 28)) [
      | inl short ↦
          scan_record_short _ size _
            (read_at-past (front ++ back) (length front) 28 (omega (arith, ltb→lt _ _ short)))
      | inr header ↦
          let lo : 28 ≤ n = ltb→ge _ _ header in
          let t : take 28 back ≡ take 28 (encode r) = take-take 28 n (encode r) lo in
          scan_record_cut _ size _ (read_at-append front back 28 (omega arith)) (
            read_at-past (front ++ back) (length front) _
              (rw (t, read_len-take r 0 v) (omega (arith, length-encode r))))
    ]

-- The scan variables after these records.
abbrev pub notes : ℕ → ℕ → Scan → List Record → Scan
notes base interval s [] = s
notes base interval s (r ∷ rs) = notes base interval (note base interval s r (encode r)) rs

module _ (base interval fuel : ℕ) (file : List ℕ) (size : ℕ) (s : Scan) where
  scan_next :
      {r : Record} {buf : List ℕ}
      → s.current_pos < size
      → scan_record file size s.current_pos ≡ done (some (r, buf))
      → scan base interval (suc fuel) file size s
        ≡ scan base interval fuel file size (note base interval s r buf)
  unfolding scan
  scan_next h e = rw (lt→ltb _ _ h, e, scan)

  pub scan_break :
      s.current_pos < size
      → scan_record file size s.current_pos ≡ done none
      → scan base interval (suc fuel) file size s ≡ done (s, true)
  unfolding scan
  scan_break h e = rw (lt→ltb _ _ h, e, scan)

-- A scan that has reached the end stops with any fuel.
pub scan_end :
    (base interval fuel : ℕ) (file : List ℕ) (s : Scan)
    → s.current_pos ≡ length file
    → scan base interval fuel file (length file) s ≡ done (s, false)
unfolding scan
scan_end base interval zero file s e = rw (ge→ltb s.current_pos (length file) (omega arith))
scan_end base interval (suc fuel) file s e =
    rw (ge→ltb s.current_pos (length file) (omega arith), scan)

current_pos-note :
    (base interval : ℕ) (s : Scan) (r : Record) (front rest : List ℕ)
    → s.current_pos ≡ length front
    → length (front ++ (encode r ++ rest)) < 2 ^ 32
    → (note base interval s r (encode r)).current_pos ≡ length (front ++ encode r)
unfolding note
current_pos-note base interval s r front rest pos small = omega (
  arith,
  length-append front (encode r ++ rest),
  length-append (encode r) rest,
  length-append front (encode r),
)

-- The loop goes through the records that the file holds behind `front`.
pub scan-encodes :
    (base interval fuel : ℕ) (front : List ℕ) (rs : List Record) (tail : List ℕ) (s : Scan)
    (file : List ℕ)
    → file ≡ front ++ (encodes rs ++ tail)
    → All IsRecord rs
    → length file < 2 ^ 32
    → s.current_pos ≡ length front
    → scan base interval (length rs + fuel) file (length file) s
      ≡ scan base interval fuel file (length file) (notes base interval s rs)
scan-encodes base interval fuel front [] tail s file e vs small pos = rw zero-add
scan-encodes base interval fuel front (r ∷ rs) tail s file e (v, vs) small pos =
    let rest : List ℕ = encodes rs ++ tail in
    let e' : file ≡ front ++ (encode r ++ rest) = rw append_assoc at e in
    let n : length file ≡ length front + (length (encode r) + length rest) =
      ap length e'
      ∙ length-append front (encode r ++ rest)
      ∙ ap (λ k. length front + k) (length-append (encode r) rest) in
    let found : scan_record file (length file) s.current_pos ≡ done (some (r, encode r)) =
      rw (pos, e') (scan_record-encode front rest r v (rw e' at small)) in
    rw suc-add (
      scan_next base interval (length rs + fuel) file (length file) s
        (omega (arith, length-encode r)) found
      ∙ scan-encodes base interval fuel (front ++ encode r) rs tail
          (note base interval s r (encode r)) file (e' ∙ sym (append_assoc front (encode r) rest))
          vs small (current_pos-note base interval s r front rest pos (rw e' at small)))

pub current_pos-notes :
    (base interval : ℕ) (s : Scan) (rs : List Record) (front : List ℕ)
    → s.current_pos ≡ length front
    → length (front ++ encodes rs) < 2 ^ 32
    → (notes base interval s rs).current_pos ≡ length (front ++ encodes rs)
current_pos-notes base interval s [] front pos small = rw append-nil pos
current_pos-notes base interval s (r ∷ rs) front pos small = rw (← append_assoc) (
    current_pos-notes base interval (note base interval s r (encode r)) rs (front ++ encode r)
      (current_pos-note base interval s r front (encodes rs) pos small)
      (rw (← append_assoc) at small))

-- A scan from the start of a file that holds `rs` and then n bytes of a longer record ends at the
-- last whole record, and breaks there if n is not 0.
pub scan-torn :
    (base interval fuel : ℕ) (rs : List Record) (r : Record) (n : ℕ) (s : Scan) (file : List ℕ)
    → file ≡ encodes rs ++ take n (encode r)
    → length file < 2 ^ 32
    → All IsRecord rs
    → IsRecord r
    → n < length (encode r)
    → n ≤ fuel
    → s.current_pos ≡ 0
    → scan base interval (length rs + fuel) file (length file) s
      ≡ done (notes base interval s rs, ltb 0 n)
scan-torn base interval fuel rs r zero s file e small vs v h le pos =
    let e' : file ≡ encodes rs = e ∙ append-nil (encodes rs) in
    scan-encodes base interval fuel [] rs [] s file e vs small pos
    ∙ scan_end base interval fuel file (notes base interval s rs)
        (current_pos-notes base interval s rs [] pos (rw e' at small) ∙ ap length (sym e'))
scan-torn base interval zero rs r (suc n) s file e small vs v h le pos = absurd (omega arith)
scan-torn base interval (suc fuel) rs r (suc n) s file e small vs v h le pos =
    let l : length file ≡ length (encodes rs) + suc n =
      ap length e
      ∙ length-append (encodes rs) (take (suc n) (encode r))
      ∙ ap (λ k. length (encodes rs) + k) (omega (arith, length-take (suc n) (encode r))) in
    let p : (notes base interval s rs).current_pos ≡ length (encodes rs) =
      current_pos-notes base interval s rs [] pos (omega arith) in
    scan-encodes base interval (suc fuel) [] rs (take (suc n) (encode r)) s file e vs small pos
    ∙ scan_break base interval fuel file (length file) (notes base interval s rs) (omega arith)
        (rw (p, e) (scan_record-torn (encodes rs) r (suc n) _ v h))
    ∙ rw (lt→ltb 0 (suc n) (omega arith))
