-- ===== src/Frame/Builder.antt =====
-- CapnpMessageFrameBuilder.hpp: the builder's calls for one message, and the table that they make.
use collab_vm_server.Base.{
  ℕ, zero, suc, ◌+◌, ◌-◌, ◌%◌, ◌≡◌, refl, sym, ap, ◌∙◌, Option, some, List, [], ◌∷◌, ◌++◌, map,
  append_assoc, arith, length, set, take, replicate, lt→ltb, ◌==◌, if◌then◌else◌, ◌>>=◌,
  length-append, length-replicate, length-take,
}
use collab_vm_server.Frame.{
  CapnpMessageFrameBuilder, frame_size, to_u32, count_word, write_at, resize, init, add_segment,
  finalize,
}
use collab_vm_server.Frame.Table.{segment_table, length-map}

-- How the builder is used: one `AddSegment` for each segment.
unfoldable pub add_all : List ℕ → CapnpMessageFrameBuilder → Option CapnpMessageFrameBuilder
add_all [] b = some b
add_all (size ∷ sizes) b = add_segment size b >>= λ b'. add_all sizes b'

unfoldable pub build : List ℕ → CapnpMessageFrameBuilder → Option CapnpMessageFrameBuilder
build sizes b =
    init (length sizes) b >>= λ b'. add_all sizes b' >>= λ b''. finalize (length sizes) b''

-- A write over the element that stands behind `before`.
write_at-middle :
    (before after : List ℕ) (old v : ℕ)
    → write_at (length before) v (before ++ old ∷ after) ≡ some (before ++ v ∷ after)
write_at-middle before after old v =
    rw
      (lt→ltb (length before) (length (before ++ old ∷ after))
        (omega (arith, length-append before (old ∷ after))))
      (rw (set-middle before after old v) refl)
  where
    set-middle : (xs ys : List ℕ) (a b : ℕ) → set (xs ++ a ∷ ys) (length xs) b ≡ xs ++ b ∷ ys
    set-middle [] ys a b = refl
    set-middle (x ∷ xs) ys a b = ap (λ (t : List ℕ). x ∷ t) (set-middle xs ys a b)

-- The sizes replace as many elements of the vector, whatever they are.
add_all-eq :
    (sizes before old after : List ℕ)
    → length old ≡ length sizes
    → add_all sizes (record { frame = before ++ (old ++ after); segment_num = length before })
      ≡ some (record {
        frame = before ++ (map to_u32 sizes ++ after);
        segment_num = length before + length sizes;
      })
unfolding add_all add_segment
add_all-eq [] before [] after e =
    let q : length before ≡ length before + 0 = omega arith in
    ap (λ (n : ℕ). some (record { frame = before ++ after; segment_num = n })) q
add_all-eq [] before (o ∷ old) after e = absurd (omega arith)
add_all-eq (size ∷ sizes) before [] after e = absurd (omega arith)
add_all-eq (size ∷ sizes) before (o ∷ old) after e =
    let v = to_u32 size in
    let n : length before + 1 ≡ length (before ++ v ∷ []) = sym (length-append before (v ∷ [])) in
    let count : length (before ++ v ∷ []) + length sizes ≡ length before + suc (length sizes) =
      omega (arith, length-append before (v ∷ [])) in
    let rest = add_all-eq sizes (before ++ v ∷ []) old after (omega (arith, e)) in
    rw (write_at-middle before (old ++ after) o v) (
      rw
        (
          n,
          sym (append_assoc before (v ∷ []) (old ++ after)),
          rest,
          count,
          append_assoc before (v ∷ []) (map to_u32 sizes ++ after),
        )
        refl)

length-resize : (n : ℕ) (xs : List ℕ) → length (resize n xs) ≡ n
length-resize n xs = omega (
  arith,
  length-append (take n xs) (replicate (n - length xs) 0),
  length-take n xs,
  length-replicate {A = ℕ} (n - length xs) 0,
)

split_at :
    (n m : ℕ) (xs : List ℕ)
    → length xs ≡ n + m
    → (a : List ℕ) × (b : List ℕ) × (xs ≡ a ++ b) × (length a ≡ n) × (length b ≡ m)
split_at zero m xs e = ([], xs, refl, refl, omega (arith, e))
split_at (suc n) m [] e = absurd (omega arith)
split_at (suc n) m (x ∷ xs) e =
    let (a, b, p, q, r) = split_at n m xs (omega (arith, e)) in
    (x ∷ a, b, ap (λ (t : List ℕ). x ∷ t) p, ap suc q, r)

-- What `Finalize` does to the element behind the table's sizes.
finalize-eq :
    (n : ℕ) (before after : List ℕ) (k : ℕ)
    → length before ≡ n + 1
    → n + 1 + length after ≡ frame_size n
    → finalize n (record { frame = before ++ after; segment_num = k })
      ≡ some (record { frame = before ++ (if n % 2 == 0 then 0 ∷ [] else []); segment_num = k })
unfolding finalize
finalize-eq n before [] k e f = ground arith
finalize-eq n before (y ∷ []) k e f = rw (sym e) (ground (arith, write_at-middle before [] y 0))
finalize-eq n before (y ∷ z ∷ after) k e f = absurd (omega arith)

fill-eq :
    (sizes : List ℕ) (o : ℕ) (old after : List ℕ)
    → length old ≡ length sizes
    → length sizes + 1 + length after ≡ frame_size (length sizes)
    → (add_all sizes
          (record { frame = count_word (length sizes) ∷ (old ++ after); segment_num = 1 })
        >>= finalize (length sizes))
      ≡ some (record { frame = segment_table sizes; segment_num = 1 + length sizes })
fill-eq sizes o old after e f = rw (add_all-eq sizes (count_word (length sizes) ∷ []) old after e) (
    finalize-eq (length sizes) (count_word (length sizes) ∷ map to_u32 sizes) after
      (1 + length sizes) (omega (arith, length-map to_u32 sizes)) f)

abbrev started : List ℕ → Option CapnpMessageFrameBuilder
started frame = some (record { frame = frame; segment_num = 1 })

from_head :
    (sizes before after : List ℕ)
    → length before ≡ suc (length sizes)
    → length sizes + 1 + length after ≡ frame_size (length sizes)
    → ((write_at 0 (count_word (length sizes)) (before ++ after) >>= started) >>= λ b'.
        add_all sizes b' >>= finalize (length sizes))
      ≡ some (record { frame = segment_table sizes; segment_num = 1 + length sizes })
from_head sizes [] after e f = absurd (omega arith)
from_head sizes (o ∷ old) after e f =
    ap
      (λ (w : Option (List ℕ)).
        (w >>= started) >>= λ b'. add_all sizes b' >>= finalize (length sizes))
      (write_at-middle [] (old ++ after) o (count_word (length sizes)))
    ∙ fill-eq sizes o old after (omega (arith, e)) f

-- A builder, new or used before, makes the segment table that `SharedSocketMessage` makes, and writes
-- nowhere else.
pub build_lem :
    (sizes : List ℕ) (b : CapnpMessageFrameBuilder)
    → build sizes b ≡ some (record { frame = segment_table sizes; segment_num = 1 + length sizes })
unfolding build init
build_lem sizes b =
    let n = length sizes in
    let (a, after, p, q, r) =
      split_at (suc n) (frame_size n - suc n) (resize (frame_size n) b.frame)
        (length-resize (frame_size n) b.frame ∙ omega arith) in
    rw p (from_head sizes a after q (omega (arith, r)))
