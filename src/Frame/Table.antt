-- ===== src/Frame/Table.antt =====
-- SocketMessage.hpp: the framing of Cap'n Proto messages, and `CreateFrame` against it.
use collab_vm_server.Base.{
  ℕ, suc, ◌+◌, ◌%◌, ◌≡◌, refl, sym, ap, ◌∙◌, Option, none, some, List, [], ◌∷◌, ◌++◌, map,
  append-nil, append_assoc, arith, length, get_elem?, take, leb, ◌==◌, if◌then◌else◌, length-append,
  Bool-cases, true, subst, inl, inr,
}
use collab_vm_server.Frame.{
  Buffer, frame_view, segment_view, SharedSocketMessage, frame_size, to_u32, count_word,
  push_segments, create_frame, Word, frame_word, segment_word, write_buffers,
}

-- The segment table of the framing: the count less one, the sizes, and padding to an even number.
abbrev pub segment_table : List ℕ → List ℕ
segment_table sizes =
    count_word (length sizes) ∷ map to_u32 sizes ++ (if length sizes % 2 == 0 then 0 ∷ [] else [])

abbrev pub sizes_of : List (List ℕ) → List ℕ
sizes_of segments = map length segments

abbrev pub concat : List (List ℕ) → List ℕ
concat [] = []
concat (s ∷ ss) = s ++ concat ss

abbrev pub segment_views : ℕ → List (List ℕ) → List Buffer
segment_views i [] = []
segment_views i (s ∷ ss) = segment_view i ∷ segment_views (suc i) ss

abbrev pub fresh_message : List (List ℕ) → SharedSocketMessage
fresh_message segments = record { segments = segments; frame = []; framed_buffers = [] }

push_segments-eq :
    (i : ℕ) (segments : List (List ℕ)) (frame : List ℕ) (buffers : List Buffer)
    → push_segments i segments (frame, buffers)
      ≡ (frame ++ map to_u32 (sizes_of segments), buffers ++ segment_views i segments)
push_segments-eq i [] frame buffers = rw (append-nil frame, append-nil buffers) refl
push_segments-eq i (s ∷ ss) frame buffers =
    rw
      (push_segments-eq (suc i) ss (frame ++ to_u32 (length s) ∷ [])
        (buffers ++ segment_view i ∷ []))
      (rw
        (
          append_assoc frame (to_u32 (length s) ∷ []) (map to_u32 (sizes_of ss)),
          append_assoc buffers (segment_view i ∷ []) (segment_views (suc i) ss),
        )
        refl)

pub length-map : {A B : Type 0} (f : A → B) (xs : List A) → length (map f xs) ≡ length xs
length-map f [] = refl
length-map f (x ∷ xs) = ap suc (length-map f xs)

abbrev padding : ℕ → List ℕ
padding n = if n % 2 == 0 then 0 ∷ [] else []

length-padding : (n : ℕ) → suc (n + length (padding n)) ≡ frame_size n
length-padding n = ground arith

pub length-segment_table :
    (sizes : List ℕ) → length (segment_table sizes) ≡ frame_size (length sizes)
length-segment_table sizes =
    ap suc (
      length-append (map to_u32 sizes) (padding (length sizes))
      ∙ ap (λ (k : ℕ). k + length (padding (length sizes))) (length-map to_u32 sizes))
    ∙ length-padding (length sizes)

-- A message that has been framed.
abbrev pub framed : List (List ℕ) → SharedSocketMessage
framed segments = record {
  segments = segments;
  frame = segment_table (sizes_of segments);
  framed_buffers = frame_view (frame_size (length segments)) ∷ segment_views 0 segments;
}

padded : (n : ℕ) (xs : List ℕ) → (if n % 2 == 0 then xs ++ 0 ∷ [] else xs) ≡ xs ++ padding n
padded n xs = elim (Bool-cases (n % 2 == 0)) [
  | inl e ↦ rw e refl
  | inr e ↦ rw (e, append-nil xs) refl
]

create_frame-framed :
    (segments : List (List ℕ)) → create_frame (fresh_message segments) ≡ framed segments
unfolding create_frame
create_frame-framed segments =
    let n = length segments in
    rw (push_segments-eq 0 segments (count_word n ∷ []) (frame_view (frame_size n) ∷ [])) (
      rw (padded n (count_word n ∷ map to_u32 (sizes_of segments)), length-map length segments)
        refl)

take-length : {A : Type 0} (xs : List A) → take (length xs) xs ≡ xs
take-length [] = refl
take-length {A = A} (x ∷ xs) = ap (λ (t : List A). x ∷ t) (take-length xs)

get_elem?-middle :
    {A : Type 0} (xs : List A) (a : A) (ys : List A) → get_elem? (xs ++ a ∷ ys) (length xs) ≡ some a
get_elem?-middle [] a ys = refl
get_elem?-middle (x ∷ xs) a ys = get_elem?-middle xs a ys

leb_refl : (n : ℕ) → leb n n ≡ true
leb_refl n = ground arith

whole :
    (t : List ℕ) (words : List Word)
    → if◌then◌else◌ {A = Option (List Word)}
        (leb (length t) (length t))
        (some (map frame_word (take (length t) t) ++ words))
        none
      ≡ some (map frame_word t ++ words)
whole t words = rw (leb_refl (length t)) (rw (take-length t) refl)

map-append : {A B : Type 0} (f : A → B) (xs ys : List A) → map f (xs ++ ys) ≡ map f xs ++ map f ys
map-append f [] ys = refl
map-append {B = B} f (x ∷ xs) ys = ap (λ (t : List B). f x ∷ t) (map-append f xs ys)

-- The views of the segments from the `i`-th on give the words of those segments.
write_buffers-segments :
    (m : SharedSocketMessage) (before after : List (List ℕ))
    → m.segments ≡ before ++ after
    → write_buffers m (segment_views (length before) after) ≡ some (map segment_word (concat after))
write_buffers-segments m before [] e = refl
write_buffers-segments m before (s ∷ ss) e =
    let rest =
      write_buffers-segments m (before ++ s ∷ []) ss (e ∙ sym (append_assoc before (s ∷ []) ss)) in
    let place : suc (length before) ≡ length (before ++ s ∷ []) =
      omega (arith, length-append before (s ∷ [])) in
    rw
      (
        place,
        rest,
        ap (λ (l : List (List ℕ)). get_elem? l (length before)) e ∙ get_elem?-middle before s ss,
      )
      (ap some (sym (map-append segment_word s (concat ss))))

-- The buffers of a message send the table and then the segments, the table is even and it stays so.
abbrev pub IsFramed : List (List ℕ) → SharedSocketMessage → Type 0
IsFramed segments m =
    (write_buffers m m.framed_buffers
      ≡ some (
          map frame_word (segment_table (sizes_of segments)) ++ map segment_word (concat segments)))
    × (length m.frame % 2 ≡ 0)
    × (create_frame m ≡ m)

frame_size-even : (n : ℕ) → frame_size n % 2 ≡ 0
frame_size-even n = omega arith

framed-IsFramed : (segments : List (List ℕ)) → IsFramed segments (framed segments)
unfolding create_frame
framed-IsFramed segments =
    let size : length (segment_table (sizes_of segments)) ≡ frame_size (length segments) =
      length-segment_table (sizes_of segments) ∙ ap frame_size (length-map length segments) in
    (
      rw (write_buffers-segments (framed segments) [] segments refl, sym size)
          (whole (segment_table (sizes_of segments)) (map segment_word (concat segments))),
      ap (λ (n : ℕ). n % 2) size ∙ frame_size-even (length segments),
      refl,
    )

-- `CreateFrame` makes the buffers of a message: what they send is first the segment table, whose length
-- is even, and then the words of all segments in order. A second call changes nothing.
pub create_frame_lem :
    (segments : List (List ℕ)) → IsFramed segments (create_frame (fresh_message segments))
create_frame_lem segments =
    subst (IsFramed segments) (sym (create_frame-framed segments)) (framed-IsFramed segments)
