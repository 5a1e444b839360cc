-- ===== src/Frame.antt =====
-- The frame that goes before the segments of a message: `SharedSocketMessage` of SocketMessage.hpp and
-- CapnpMessageFrameBuilder.hpp. A segment is the list of its words. A buffer is a view: of the first
-- words of `frame_`, or of a segment. `none` is a fault: a write past the end of the vector, or a view
-- of more than there is.
pub mod Table
pub mod Builder
mod Examples
use collab_vm_server.Base.{
  ℕ, zero, suc, ◌+◌, ◌-◌, ◌*◌, ◌%◌, ◌^◌, Option, none, some, List, [], ◌∷◌, ◌++◌, map, length,
  get_elem?, set, take, replicate, leb, ltb, ◌==◌, if◌then◌else◌, ◌>>=◌,
}

pub data Buffer : Type 0 where
  frame_view segment_view : ℕ → Buffer

pub record SharedSocketMessage : Type 0 where
  pub segments : List (List ℕ)
  pub frame : List ℕ
  pub framed_buffers : List Buffer

-- `(n + 2) & ~size_t(1)`.
abbrev pub frame_size : ℕ → ℕ
frame_size n = n + 2 - (n + 2) % 2

-- A size_t stored in a std::uint32_t.
abbrev pub to_u32 : ℕ → ℕ
to_u32 n = n % 2 ^ 32

-- `n - 1` on a size_t, stored in a std::uint32_t.
abbrev pub count_word : ℕ → ℕ
count_word n = to_u32 (n + (2 ^ 64 - 1))

-- The loop over the segments, which are numbered from `i`.
abbrev pub push_segments : ℕ → List (List ℕ) → List ℕ × List Buffer → List ℕ × List Buffer
push_segments i [] (frame, buffers) = (frame, buffers)
push_segments i (segment ∷ segments) (frame, buffers) =
    push_segments (suc i) segments
      (frame ++ to_u32 (length segment) ∷ [], buffers ++ segment_view i ∷ [])

unfoldable pub create_frame : SharedSocketMessage → SharedSocketMessage
create_frame m = elim m.framed_buffers [
  | b ∷ bs ↦ m
  | [] ↦
      let segment_count = length m.segments in
      let (frame, buffers) = push_segments 0 m.segments (
        m.frame ++ count_word segment_count ∷ [],
        m.framed_buffers ++ frame_view (frame_size segment_count) ∷ [],
      ) in
      record m {
        frame = if segment_count % 2 == 0 then frame ++ 0 ∷ [] else frame;
        framed_buffers = buffers;
      }
]

-- A word of the frame has 32 bits, one of a segment 64.
pub data Word : Type 0 where
  frame_word segment_word : ℕ → Word

-- What is sent: the words that the buffers cover, in the order of the buffers.
abbrev pub write_buffers : SharedSocketMessage → List Buffer → Option (List Word)
write_buffers m [] = some []
write_buffers m (frame_view n ∷ bs) = write_buffers m bs >>= λ w.
    if leb n (length m.frame) then some (map frame_word (take n m.frame) ++ w) else none
write_buffers m (segment_view i ∷ bs) =
    write_buffers m bs >>= λ w. get_elem? m.segments i >>= λ s. some (map segment_word s ++ w)

pub record CapnpMessageFrameBuilder : Type 0 where
  pub frame : List ℕ
  pub segment_num : ℕ

-- `frame_[i] = v`.
abbrev pub write_at : ℕ → ℕ → List ℕ → Option (List ℕ)
write_at i v frame = if ltb i (length frame) then some (set frame i v) else none

-- `resize`.
abbrev pub resize : ℕ → List ℕ → List ℕ
resize n frame = take n frame ++ replicate (n - length frame) 0

unfoldable pub init : ℕ → CapnpMessageFrameBuilder → Option CapnpMessageFrameBuilder
init segment_count b =
    write_at 0 (count_word segment_count) (resize (frame_size segment_count) b.frame) >>= λ frame.
    some (record { frame = frame; segment_num = 1 })

unfoldable pub add_segment : ℕ → CapnpMessageFrameBuilder → Option CapnpMessageFrameBuilder
add_segment segment_size b = write_at b.segment_num (to_u32 segment_size) b.frame >>= λ frame.
    some (record { frame = frame; segment_num = b.segment_num + 1 })

unfoldable pub finalize : ℕ → CapnpMessageFrameBuilder → Option CapnpMessageFrameBuilder
finalize segment_count b =
    if segment_count % 2 == 0
    then (write_at (segment_count + 1) 0 b.frame >>= λ frame. some (record b { frame = frame }))
    else some b
